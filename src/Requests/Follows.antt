-- ===== src/Requests/Follows.antt =====
-- Relations between the session before an action and the session behind it, whether the action
-- returns or raises: one rule for each way to build an action.
use jarvis_ai_coo.Prelude.{Bool, true, false, Option, none, some, if◌then◌else◌}
use jarvis_ai_coo.Errors.{Error}
use jarvis_ai_coo.Database.{
  Session, Result, ok, raised, Action, pure, raise, or_raise, raise_if, gets, resume, ◌>>=◌,
}

-- A relation that chains.
pub record IsOrder (R : Session → Session → Type 0) : Type 0 where
  pub rel_refl : (s : Session) → R s s
  pub rel_trans : (s t u : Session) → R s t → R t u → R s u

pub record Follows {A : Type 0} (R : Session → Session → Type 0) (m : Action A) : Type 0 where
  pub at : (s : Session) → R s (m s).1

module _ {R : Session → Session → Type 0} (o : IsOrder R) where
  pub Follows-pure : {A : Type 0} (a : A) → Follows R (pure a)
  unfolding pure
  Follows-pure a = record { at = o.rel_refl }

  pub Follows-raise : {A : Type 0} (e : Error) → Follows R (raise {A = A} e)
  unfolding raise
  Follows-raise e = record { at = o.rel_refl }

  pub Follows-or_raise : {A : Type 0} (x : Option A) (e : Error) → Follows R (or_raise x e)
  unfolding or_raise
  Follows-or_raise none e = record { at = o.rel_refl }
  Follows-or_raise (some a) e = record { at = o.rel_refl }

  pub Follows-raise_if : (b : Bool) (e : Error) → Follows R (raise_if b e)
  unfolding raise_if
  Follows-raise_if b e = record { at = o.rel_refl }

  pub Follows-gets : {A : Type 0} (f : Session → A) → Follows R (gets f)
  unfolding gets
  Follows-gets f = record { at = o.rel_refl }

  pub Follows-if :
      {A : Type 0} (b : Bool) (m n : Action A)
      → Follows R m
      → Follows R n
      → Follows R (if b then m else n)
  Follows-if true m n km kn = km
  Follows-if false m n km kn = kn

  Follows-resume :
      {A B : Type 0} (r : Result A) (f : A → Action B)
      → ((a : A) → Follows R (f a))
      → (s t : Session) → R s t
      → R s (resume r f t).1
  Follows-resume (ok a) f kf s t h = o.rel_trans s t (f a t).1 h ((kf a).at t)
  Follows-resume (raised e) f kf s t h = h

  pub Follows-bind :
      {A B : Type 0} (m : Action A) (f : A → Action B)
      → Follows R m
      → ((a : A) → Follows R (f a))
      → Follows R (m >>= f)
  unfolding ◌>>=◌
  Follows-bind m f km kf = record {
    at = λ s. let (r, t) = m s in Follows-resume r f kf s t (km.at s);
  }

  pub ruleset follows_rules = (
    Follows-pure, Follows-raise, Follows-or_raise, Follows-raise_if, Follows-gets, Follows-if,
    Follows-bind,
  )
