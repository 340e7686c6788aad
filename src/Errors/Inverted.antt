-- ===== src/Errors/Inverted.antt =====
-- What an action that returned went through.
use resident_fat.Prelude.{◌≡◌, refl, sym, ap, subst}
use resident_fat.Errors.{Result, Act, done, failed, panicked, stuck, continue_to}

abbrev pub IsDone : {A : Type 0} → Result A → Type 0
IsDone (done a) = Unit {0}
IsDone (failed e) = ⊥
IsDone panicked = ⊥
IsDone stuck = ⊥

abbrev value_or : {A : Type 0} → A → Result A → A
value_or x (done a) = a
value_or x (failed e) = x
value_or x panicked = x
value_or x stuck = x

pub done-injective : {A : Type 0} (a b : A) → done a ≡ done b → a ≡ b
done-injective a b e = ap (value_or a) e

pub done_only : {A : Type 0} (r : Result A) (a : A) → r ≡ done a → IsDone r
done_only r a h = subst IsDone (sym h) tt

module _ {S : Type 0} where
  -- What `?` passes on was returned.
  pub continue-done :
      {A B : Type 0} (r : Result A × S) (k : A → Act S B) (b : B) (t : S)
      → continue_to r k ≡ (done b, t)
      → (a : A) × (s : S) × (r ≡ (done a, s)) × (k a s ≡ (done b, t))
  continue-done (done a, s) k b t h = (a, s, refl, h)
  continue-done (failed e, s) k b t h = absurd (done_only (failed e) b (ap (λ r. r.0) h))
  continue-done (panicked, s) k b t h = absurd (done_only panicked b (ap (λ r. r.0) h))
  continue-done (stuck, s) k b t h = absurd (done_only stuck b (ap (λ r. r.0) h))
