-- ===== src/Supervisor/Await.antt =====
-- supervisor/core.ts: the waits. While the supervisor waits for the database, children exit and the
-- shutdown may begin; and a call may throw. A script says, for each wait in turn, what happens
-- during it and whether the call goes through (past its end: nothing happens, and it does).
use catworld.Common.{ℕ, String, Bool, true, false, Option, List, [], ◌∷◌, ◌++◌}
use catworld.Supervisor.{Effect, Supervisor}
use catworld.Supervisor.Reconcile.{child_exits, begin_shutdown}

pub data Event : Type 0 where
  exits : (name : String) (handle : ℕ) (code : Option ℕ) (now : ℕ) → Event
  shuts_down : (timeout now : ℕ) → Event

abbrev pub happens : Event → Supervisor → Supervisor
happens (exits name handle code now) s = child_exits name handle code now s
happens (shuts_down timeout now) s = begin_shutdown timeout now s

abbrev pub all_happen : List Event → Supervisor → Supervisor
all_happen [] s = s
all_happen (e ∷ es) s = all_happen es (happens e s)

pub record Wait : Type 0 where
  pub events : List Event
  pub went : Bool

pub record World : Type 0 where
  pub sup : Supervisor
  pub script : List Wait

pub data Result {ℓ} (A : Type ℓ) : Type ℓ where
  ok : A → Result A
  thrown : Result A

abbrev pub M : Type 0 → Type 0
M A = World → Result A × World

abbrev pub pass {ℓ} :
    {A B : Type ℓ} → Result A × World → (A → World → Result B × World) → Result B × World
pass (ok a, w) f = f a w
pass (thrown, w) f = (thrown, w)

infixl 5 ◌>>=◌ ◌>>◌
unfoldable pub ◌>>=◌ : {A B : Type 0} → M A → (A → M B) → M B
◌>>=◌ m f w = pass (m w) f

abbrev pub ◌>>◌ : {B : Type 0} → M (Unit {0}) → M B → M B
m >> k = m >>= λ _. k

abbrev pub return : {A : Type 0} → A → M A
return a w = (ok a, w)

abbrev pub throw : {A : Type 0} → M A
throw w = (thrown, w)

-- A part between two waits.
abbrev pub change : (Supervisor → Supervisor) → M (Unit {0})
change f w = (ok tt, record w { sup = f w.sup })

abbrev pub get : M Supervisor
get w = (ok w.sup, w)

abbrev pub handled : {A : Type 0} → A → Result A × World → Result A × World
handled a (ok b, w) = (ok b, w)
handled a (thrown, w) = (ok a, w)

-- `.catch(() => a)`.
abbrev pub catch : {A : Type 0} → A → M A → M A
catch a m w = handled a (m w)

abbrev pub note : (Bool → List Effect) → Bool → Supervisor → Supervisor
note effects went s = record s { out = s.out ++ effects went }

abbrev pub reply : Bool → World → Result (Unit {0}) × World
reply true w = (ok tt, w)
reply false w = (thrown, w)

pub waiting : (Bool → List Effect) → List Wait → World → Result (Unit {0}) × World
waiting effects [] w = (ok tt, record w { sup = note effects true w.sup })
waiting effects (x ∷ xs) w =
    reply x.went (record { sup = all_happen x.events (note effects x.went w.sup); script = xs })

-- A call of the database, with what it does to the world if it goes through or not.
unfoldable pub await : (Bool → List Effect) → M (Unit {0})
unfolding waiting
await effects w = waiting effects w.script w
