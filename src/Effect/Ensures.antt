-- ===== src/Effect/Ensures.antt =====
-- Rules for calls that act on the world: from a world with `P`, a call that succeeds ends with `Q` of
-- its value and the world, and one that fails ends with `E` of the world.
use block_explorer_backend.Prelude.{◌≡◌, refl, Bool, true, false, if◌then◌else◌}
use block_explorer_backend.Errors.{GoError}
use block_explorer_backend.Effect.{
  Result, ok, err, Io, pure, lift, ◌>>=◌, continue, on_error, map_err,
}

abbrev pub Ends : {W A : Type 0} → (A → W → Type 0) → (W → Type 0) → Result A → W → Type 0
Ends Q E (ok a) w = Q a w
Ends Q E (err e) w = E w

pub record Ensures {W A : Type 0} (P : W → Type 0) (m : Io W A) (Q : A → W → Type 0)
    (E : W → Type 0) : Type 0 where
  pub at : (w : W) → P w → Ends Q E (m w).0 (m w).1

module _ {W A : Type 0} {P : W → Type 0} {Q : A → W → Type 0} {E : W → Type 0} where
  pub Ensures-pure : (a : A) → ((w : W) → P w → Q a w) → Ensures P (pure a) Q E
  Ensures-pure a h = record { at = h }

  pub Ensures-lift :
      (r : Result A)
      → ((a : A) → r ≡ ok a → (w : W) → P w → Q a w)
      → ((w : W) → P w → E w)
      → Ensures P (lift r) Q E
  Ensures-lift (ok a) h k = record { at = h a refl }
  Ensures-lift (err e) h k = record { at = k }

  pub Ensures-if :
      (b : Bool) {m n : Io W A}
      → (b ≡ true → Ensures P m Q E)
      → (b ≡ false → Ensures P n Q E)
      → Ensures P (if b then m else n) Q E
  Ensures-if true h k = h refl
  Ensures-if false h k = k refl

pub Ends-both : {W A : Type 0} (E : W → Type 0) (r : Result A) (w : W) → Ends (λ a. E) E r w → E w
Ends-both E (ok a) w h = h
Ends-both E (err e) w h = h

Ends-weaken :
    {W A : Type 0} (Q R : A → W → Type 0) (E F : W → Type 0)
    → ((a : A) (w : W) → Q a w → R a w)
    → ((w : W) → E w → F w)
    → (r : Result A) (w : W) → Ends Q E r w
    → Ends R F r w
Ends-weaken Q R E F q e (ok a) w h = q a w h
Ends-weaken Q R E F q e (err x) w h = e w h

on_error-Ends :
    {W A : Type 0} (Q : A → W → Type 0) (E : W → Type 0) (f : GoError → GoError) (r : Result A)
    (w : W)
    → Ends Q E r w
    → Ends Q E (on_error f r) w
on_error-Ends Q E f (ok a) w h = h
on_error-Ends Q E f (err e) w h = h

continue-Ends :
    {W A B : Type 0} (Q : A → W → Type 0) (R : B → W → Type 0) (E F : W → Type 0) (f : A → Io W B)
    → ((a : A) → Ensures (Q a) (f a) R F)
    → ((w : W) → E w → F w)
    → (r : Result A) (w : W) → Ends Q E r w
    → Ends R F (continue r f w).0 (continue r f w).1
continue-Ends Q R E F f g k (ok a) w h = (g a).at w h
continue-Ends Q R E F f g k (err e) w h = k w h

module _ {W A : Type 0} {P : W → Type 0} {Q : A → W → Type 0} {E : W → Type 0} where
  pub Ensures-map_err :
      (f : GoError → GoError) {m : Io W A} → Ensures P m Q E → Ensures P (map_err f m) Q E
  Ensures-map_err f {m} h = record { at = λ w p. on_error-Ends Q E f (m w).0 (m w).1 (h.at w p) }

  pub Ensures-bind :
      {B : Type 0} {R : B → W → Type 0} {m : Io W A} {f : A → Io W B}
      → Ensures P m Q E
      → ((a : A) → Ensures (Q a) (f a) R E)
      → Ensures P (m >>= f) R E
  Ensures-bind {R = R} {m} {f} h k = record {
    at = λ w p. continue-Ends Q R E E f k (λ w' e. e) (m w).0 (m w).1 (h.at w p);
  }

  pub Ensures-weaken :
      {P' : W → Type 0} {R : A → W → Type 0} {F : W → Type 0} {m : Io W A}
      → Ensures P m Q E
      → ((w : W) → P' w → P w)
      → ((a : A) (w : W) → Q a w → R a w)
      → ((w : W) → E w → F w)
      → Ensures P' m R F
  Ensures-weaken {R = R} {F} {m} h p q e = record {
    at = λ w x. Ends-weaken Q R E F q e (m w).0 (m w).1 (h.at w (p w x));
  }

  -- A part of the precondition that does not speak of the world.
  pub Ensures-given :
      {F : Type 0} {m : Io W A} → (F → Ensures P m Q E) → Ensures (λ w. P w × F) m Q E
  Ensures-given h = record { at = λ w (p, f). (h f).at w p }

-- A success under an error's context is the call's.
pub on_error-eq-ok :
    {A : Type 0} (f : GoError → GoError) (r : Result A) (a : A) → on_error f r ≡ ok a → r ≡ ok a
on_error-eq-ok f (ok x) a h = h
on_error-eq-ok f (err e) a h = absurd (cc)
