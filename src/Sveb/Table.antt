-- ===== src/Sveb/Table.antt =====
-- `init_height` ends, and the table that it leaves lays the levels out.
use green_hash_tree.Prelude.{
  ℕ, zero, suc, ◌+◌, ◌-◌, ◌/◌, ◌≤◌, ◌<◌, ◌≡◌, refl, ◌∙◌, ◌⊎◌, inl, inr, true, false, Bool-cases,
  ltb, leb, ◌==◌, update, update_self, update_ne, arith,
}
use green_hash_tree.Prelude.Run.{ok, Gives, gives, Gives-bind, Gives-map}
use green_hash_tree.Sveb.{LevelInfo, table_length, write, init_height}
use green_hash_tree.Sveb.Layout.{cut_entry, Laid, one_level, split}

-- Only the entries strictly between the ends matter.
Laid_same :
    {myli myli' : ℕ → LevelInfo} {top bot : ℕ}
    → ((i : ℕ) → bot < i → i < top → myli' i ≡ myli i)
    → Laid myli top bot
    → Laid myli' top bot
Laid_same same (one_level h) = one_level h
Laid_same same (split me h g e upper lower) =
    split me h g (same me h g ∙ e) (Laid_same (λ i a b. same i (omega arith) b) upper)
      (Laid_same (λ i a b. same i a (omega arith)) lower)

pub write-ok {ℓ} :
    {A : Type ℓ} (a : ℕ → A) (n i : ℕ) (x : A) → i < n → write a n i x ≡ ok (update a i x)
write-ok a n i x h = let e : ltb i n ≡ true = ground arith in rw e refl

-- What `init_height` leaves for the levels from `bot + 1` to `top`.
pub record Filled (top bot : ℕ) (myli myli' : ℕ → LevelInfo) : Type 0 where
  pub laid : Laid myli' top bot
  pub others : (i : ℕ) → (i ≤ bot) ⊎ (top ≤ i) → myli' i ≡ myli i

-- The two recursive calls, after the entry for the level between the halves.
halves :
    (top bot me : ℕ)
    → bot < me
    → me < top
    → (myli myli2 myli3 : ℕ → LevelInfo)
    → Filled top me (update myli me (cut_entry top me bot)) myli2
    → Filled me bot myli2 myli3
    → Filled top bot myli myli3
halves top bot me above below myli myli2 myli3 f f' =
    let myli1 = update myli me (cut_entry top me bot) in
    let entry : myli3 me ≡ cut_entry top me bot =
      f'.others me (inr (omega arith))
      ∙ f.others me (inl (omega arith))
      ∙ update_self myli me (cut_entry top me bot) in
    let upper : Laid myli3 top me = Laid_same (λ i a b. f'.others i (inr (omega arith))) f.laid in
    let far : (i : ℕ) → (i ≤ bot) ⊎ (top ≤ i) → (me == i) ≡ false =
      (λ i a. elim a [ inl b ↦ ground arith | inr b ↦ ground arith ]) in
    let others : (i : ℕ) → (i ≤ bot) ⊎ (top ≤ i) → myli3 i ≡ myli i = (λ i a.
      let x = f'.others i (elim a [ inl b ↦ inl b | inr b ↦ inr (omega arith) ]) in
      let y = f.others i (elim a [ inl b ↦ inl (omega arith) | inr b ↦ inr b ]) in
      x ∙ y ∙ update_ne myli me (cut_entry top me bot) (far i a)) in
    record { laid = split me above below entry upper f'.laid; others = others }

pub init_height_lem :
    (fuel top bot : ℕ) (myli : ℕ → LevelInfo)
    → top - bot < fuel
    → top ≤ table_length
    → Gives (Filled top bot myli) (init_height fuel top bot myli)
unfolding init_height
init_height_lem zero top bot myli h g = elim h [ ]
init_height_lem (suc fuel) top bot myli h g = elim (Bool-cases (leb top (bot + 1))) [
  | inl e ↦ rw e (gives (record { laid = one_level (ground arith); others = λ i a. refl }))
  | inr e ↦
      let me = (top + bot + 1) / 2 in
      let above : bot < me = ground arith in
      let below : me < top = ground arith in
      let myli1 = update myli me (cut_entry top me bot) in
      rw e (
        rw (write-ok myli table_length me (cut_entry top me bot) (omega arith)) (
          Gives-bind (init_height_lem fuel top me myli1 (omega arith) g) λ myli2 f.
            Gives-map (init_height_lem fuel me bot myli2 (omega arith) (omega arith))
              λ myli3 f'. halves top bot me above below myli myli2 myli3 f f'))
]
