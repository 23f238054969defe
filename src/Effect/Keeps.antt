-- ===== src/Effect/Keeps.antt =====
-- Calls that leave a view of the world alone, however they end.
use block_explorer_backend.Prelude.{
  ◌≡◌, refl, ap, ◌∙◌, Bool, true, false, Option, none, some, if◌then◌else◌,
}
use block_explorer_backend.Errors.{GoError}
use block_explorer_backend.Effect.{
  Result, ok, err, Io, pure, throw, lift, ◌>>=◌, continue, map_err, unless_error,
}
use block_explorer_backend.Effect.Ensures.{Ends, Ensures}

pub record Keeps {W V A : Type 0} (view : W → V) (m : Io W A) : Type 0 where
  pub at : (w : W) → view (m w).1 ≡ view w

module _ {W V A : Type 0} {view : W → V} where
  pub Keeps-pure : (a : A) → Keeps view (pure {A = A} a)
  Keeps-pure a = record { at = λ w. refl }

  pub Keeps-throw : (e : GoError) → Keeps view (throw {A = A} e)
  Keeps-throw e = record { at = λ w. refl }

  pub Keeps-lift : (r : Result A) → Keeps view (lift r)
  Keeps-lift r = record { at = λ w. refl }

  pub Keeps-if :
      (b : Bool) {m n : Io W A} → Keeps view m → Keeps view n → Keeps view (if b then m else n)
  Keeps-if true h k = h
  Keeps-if false h k = k

  pub Keeps-unless_error :
      (o : Option GoError) (e : GoError) {m : Io W A}
      → Keeps view m
      → Keeps view (unless_error o e m)
  Keeps-unless_error (some x) e h = record { at = λ w. refl }
  Keeps-unless_error none e h = h

  pub Keeps-elim :
      {B : Type 0} {f : B → Io W A} {m : Io W A} (o : Option B)
      → ((b : B) → Keeps view (f b))
      → Keeps view m
      → Keeps view (elim o [ some b ↦ f b | none ↦ m ])
  Keeps-elim (some b) h k = h b
  Keeps-elim none h k = k

  pub Keeps-map_err : (f : GoError → GoError) {m : Io W A} → Keeps view m → Keeps view (map_err f m)
  Keeps-map_err f h = record { at = h.at }

  continue-Keeps :
      {B : Type 0} (r : Result A) (f : A → Io W B) (w : W)
      → ((a : A) → Keeps view (f a))
      → view (continue r f w).1 ≡ view w
  continue-Keeps (ok a) f w h = (h a).at w
  continue-Keeps (err e) f w h = refl

  pub Keeps-bind :
      {B : Type 0} {m : Io W A} {f : A → Io W B}
      → Keeps view m
      → ((a : A) → Keeps view (f a))
      → Keeps view (m >>= f)
  Keeps-bind {m = m} {f} h k = record { at = λ w. continue-Keeps (m w).0 f (m w).1 k ∙ h.at w }

-- What is seen through the view is kept too.
pub Keeps-part :
    {W V U A : Type 0} {view : W → V} {m : Io W A} (f : V → U)
    → Keeps view m
    → Keeps (λ w. f (view w)) m
Keeps-part f h = record { at = λ w. ap f (h.at w) }

pub always : {W A : Type 0} (P : W → Type 0) (r : Result A) (w : W) → P w → Ends (λ a w. P w) P r w
always P (ok a) w p = p
always P (err e) w p = p

-- A property of what is kept.
pub Keeps-Ensures :
    {W V A : Type 0} {view : W → V} {m : Io W A} (P : V → Type 0)
    → Keeps view m
    → Ensures (λ w. P (view w)) m (λ a w. P (view w)) (λ w. P (view w))
Keeps-Ensures {view = view} {m} P h = record {
  at = λ w p. always (λ w. P (view w)) (m w).0 (m w).1 (rw (h.at w) p);
}

-- No failure.
abbrev pub Never : {W : Type 0} → W → Type 0
Never w = ⊥
