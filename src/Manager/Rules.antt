-- ===== src/Manager/Rules.antt =====
-- Rules for the actions of the manager: a property that every step keeps, and what holds at the end
-- by how the action ended.
use comnetsemu.Manager.Data.{Result, ok, raised, waiting, Error}
use comnetsemu.Manager.State.{Manager, ◌>>=◌, resume}

module _ {I W : Type 0} (P : Manager I W → Type 0) where
  abbrev pub Keeps : {A : Type 0} → (Manager I W → Result A × Manager I W) → Type 0
  Keeps m = (s : Manager I W) → P s → P (m s).1

  resume-Keeps :
      {A B : Type 0} (f : A → Manager I W → Result B × Manager I W)
      → ((a : A) → Keeps (f a))
      → (p : Result A × Manager I W) → P p.1
      → P (resume f p).1
  resume-Keeps f kf (ok a, s) h = kf a s h
  resume-Keeps f kf (raised e, s) h = h
  resume-Keeps f kf (waiting, s) h = h

  pub >>=-Keeps :
      {A B : Type 0} (m : Manager I W → Result A × Manager I W)
      (f : A → Manager I W → Result B × Manager I W)
      → Keeps m
      → ((a : A) → Keeps (f a))
      → Keeps (m >>= f)
  >>=-Keeps m f km kf s h = resume-Keeps f kf (m s) (km s h)

-- A property of the steps before the last, and what is claimed at the end. An action that stops early
-- has only the steps' property.
module _ {I W B : Type 0} (P : Manager I W → Type 0) (Q : Result B → Manager I W → Type 0) where
  abbrev pub Ensures : (Manager I W → Result B × Manager I W) → Type 0
  Ensures m = (s : Manager I W) → P s → Q (m s).0 (m s).1

  module _ (at_raise : (e : Error) (s : Manager I W) → P s → Q (raised e) s)
      (at_wait : (s : Manager I W) → P s → Q waiting s) where
    resume-Ensures :
        {A : Type 0} (f : A → Manager I W → Result B × Manager I W)
        → ((a : A) → Ensures (f a))
        → (p : Result A × Manager I W) → P p.1
        → Q (resume f p).0 (resume f p).1
    resume-Ensures f kf (ok a, s) h = kf a s h
    resume-Ensures f kf (raised e, s) h = at_raise e s h
    resume-Ensures f kf (waiting, s) h = at_wait s h

    pub >>=-Ensures :
        {A : Type 0} (m : Manager I W → Result A × Manager I W)
        (f : A → Manager I W → Result B × Manager I W)
        → Keeps P m
        → ((a : A) → Ensures (f a))
        → Ensures (m >>= f)
    >>=-Ensures m f km kf s h = resume-Ensures f kf (m s) (km s h)
