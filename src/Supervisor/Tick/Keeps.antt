-- ===== src/Supervisor/Tick/Keeps.antt =====
-- The rule for invariants of the supervisor: what every part between two waits keeps, a whole tick
-- keeps, whatever happens during the waits and whichever database calls throw.
use catworld.Common.{
  ℕ, zero, suc, String, Bool, true, false, Option, none, some, List, [], ◌∷◌, ◌++◌, if◌then◌else◌,
}
use catworld.Worker.Commands.{
  CommandAction, restart_profile, stop_profile, start_profile, restart_all, restart_supervisor,
}
use catworld.Supervisor.{
  Slot, CoreProfile, CoreConfig, CoreCommand, ActiveCommand, Effect, Supervisor,
}
use catworld.Supervisor.Reconcile.{reconcile, enforce_deadlines}
use catworld.Supervisor.Commands.{
  Outcome, fails, stores, restart_profile_part, stop_profile_part, start_profile_part,
  restart_all_part, restart_supervisor_part, retire,
}
use catworld.Supervisor.Await.{
  Event, happens, all_happen, Wait, World, Result, ok, thrown, M, ◌>>=◌, return, catch, await, pass,
  handled, reply, waiting,
}
use catworld.Supervisor.Tick.{
  audited, conclude, run_part, set_enabled_part, perform, start_command, report_failure, or_report,
  process_from, process_commands, complete, finish_one, finish_each, finish_commands,
  send_heartbeat, beat, send_expire, expire, Answers, tick_body, tick, run,
}

pub record Stable (P : Supervisor → Type 0) : Type 0 where
  pub on_event : (e : Event) (s : Supervisor) → P s → P (happens e s)
  pub on_output : (es : List Effect) (s : Supervisor) → P s → P (record s { out = s.out ++ es })
  pub on_config : (c : CoreConfig) (s : Supervisor) → P s → P (record s { cfg = c })
  pub on_beat : (t : ℕ) (s : Supervisor) → P s → P (record s { last_heartbeat = t })
  pub on_expire : (t : ℕ) (s : Supervisor) → P s → P (record s { last_expire = t })
  pub on_reconcile :
      (ps : List CoreProfile) (now : ℕ) (s : Supervisor) → P s → P (reconcile ps now s)
  pub on_deadlines : (now : ℕ) (s : Supervisor) → P s → P (enforce_deadlines now s)
  pub on_restart :
      (c : CoreCommand) (now : ℕ) (s : Supervisor) → P s → P (restart_profile_part c now s).0
  pub on_stop :
      (c : CoreCommand) (now : ℕ) (name : String) (s : Supervisor)
      → P s
      → P (stop_profile_part c now name s).0
  pub on_start :
      (now : ℕ) (name : String) (s : Supervisor) → P s → P (start_profile_part now name s).0
  pub on_restart_all :
      (c : CoreCommand) (now : ℕ) (s : Supervisor) → P s → P (restart_all_part c now s).0
  pub on_restart_supervisor :
      (c : CoreCommand) (now : ℕ) (s : Supervisor) → P s → P (restart_supervisor_part c now s).0
  pub on_retire : (id : String) (s : Supervisor) → P s → P (retire id s)

module _ (P : Supervisor → Type 0) (st : Stable P) where
  -- The computation keeps the predicate, also where it throws.
  abbrev Keeps : {A : Type 0} → M A → Type 0
  Keeps m = (w : World) → P w.sup → P (m w).1.sup

  Keeps->>= :
      {A B : Type 0} (m : M A) (f : A → M B) → Keeps m → ((a : A) → Keeps (f a)) → Keeps (m >>= f)
  unfolding ◌>>=◌
  Keeps->>= {A} {B} m f hm hf w p = next (m w) (hm w p)
    where
      next : (r : Result A × World) → P r.1.sup → P (pass r f).1.sup
      next (ok a, w') q = hf a w' q
      next (thrown, w') q = q

  Keeps-catch : (m : M (Unit {0})) → Keeps m → Keeps (catch tt m)
  Keeps-catch m hm w p = next (m w) (hm w p)
    where
      next : (r : Result (Unit {0}) × World) → P r.1.sup → P (handled tt r).1.sup
      next (ok a, w') q = q
      next (thrown, w') q = q

  all_happen-P : (es : List Event) (s : Supervisor) → P s → P (all_happen es s)
  all_happen-P [] s p = p
  all_happen-P (e ∷ es) s p = all_happen-P es (happens e s) (st.on_event e s p)

  Keeps-await : (f : Bool → List Effect) → Keeps (await f)
  unfolding await
  Keeps-await f w p = go w.script
    where
      replied : (b : Bool) (v : World) → P v.sup → P (reply b v).1.sup
      replied true v q = q
      replied false v q = q

      go : (script : List Wait) → P (waiting f script w).1.sup
      go [] = st.on_output (f true) w.sup p
      go (x ∷ xs) = replied x.went _ (all_happen-P x.events _ (st.on_output (f x.went) w.sup p))

  Keeps-audited : (type id : String) (b : Bool) → Keeps (audited type id b)
  Keeps-audited type id b = Keeps-catch _ (Keeps-await _)

  Keeps-conclude : (id : String) (o : Outcome) → Keeps (conclude id o)
  Keeps-conclude id fails = λ w p. p
  Keeps-conclude id (stores status) = Keeps-await _

  Keeps-run_part :
      (c : CoreCommand) (part : Supervisor → Supervisor × Outcome)
      → ((s : Supervisor) → P s → P (part s).0)
      → Keeps (run_part c part)
  Keeps-run_part c part h w p = Keeps-conclude c.id (part w.sup).1 _ (h w.sup p)

  Keeps-set_enabled_part :
      (c : CoreCommand) (b : Bool) (part : String → Supervisor → Supervisor × Outcome)
      → ((name : String) (s : Supervisor) → P s → P (part name s).0)
      → (found : Option (String × Slot)) → Keeps (set_enabled_part c b part found)
  unfolding set_enabled_part
  Keeps-set_enabled_part c b part h none = λ w p. p
  Keeps-set_enabled_part c b part h (some (name, slot)) =
      Keeps->>= _ _ (Keeps-await _)
        λ _. Keeps->>= _ _ (Keeps-audited _ _ _) λ _. Keeps-run_part c (part name) (h name)

  Keeps-perform : (c : CoreCommand) (now : ℕ) (a : CommandAction) → Keeps (perform c now a)
  unfolding perform
  Keeps-perform c now restart_profile = Keeps-run_part c _ (st.on_restart c now)
  Keeps-perform c now stop_profile =
      Keeps->>= _ _ (λ w p. p) λ s. Keeps-set_enabled_part c false _ (st.on_stop c now) _
  Keeps-perform c now start_profile =
      Keeps->>= _ _ (λ w p. p) λ s. Keeps-set_enabled_part c true _ (st.on_start now) _
  Keeps-perform c now restart_all = Keeps-run_part c _ (st.on_restart_all c now)
  Keeps-perform c now restart_supervisor = Keeps-run_part c _ (st.on_restart_supervisor c now)

  Keeps-start_command : (c : CoreCommand) (now : ℕ) → Keeps (start_command c now)
  unfolding start_command
  Keeps-start_command c now = Keeps->>= _ _ (Keeps-audited _ _ _) λ _. Keeps-perform c now c.action

  Keeps-report_failure : (c : CoreCommand) → Keeps (report_failure c)
  Keeps-report_failure c = Keeps->>= _ _ (Keeps-await _) λ _. Keeps-audited _ _ _

  Keeps-or_report :
      (c : CoreCommand) (r : Result (Unit {0}) × World) → P r.1.sup → P (or_report c r).1.sup
  Keeps-or_report c (ok a, w) p = p
  Keeps-or_report c (thrown, w) p = Keeps-report_failure c w p

  Keeps-process_from : (i : ℕ) (cs : List CoreCommand) (now : ℕ) → Keeps (process_from i cs now)
  unfolding process_from
  Keeps-process_from zero cs now = λ w p. p
  Keeps-process_from (suc i) [] now = Keeps-await _
  Keeps-process_from (suc i) (c ∷ cs) now = Keeps->>= _ _ (Keeps-await _) λ _.
      Keeps->>= _ _ (λ v q. Keeps-or_report c _ (Keeps-start_command c now v q))
        λ _. Keeps-process_from i cs now

  Keeps-if : (b : Bool) (m : M (Unit {0})) → Keeps m → Keeps (if b then m else return tt)
  Keeps-if true m h = h
  Keeps-if false m h = λ w p. p

  Keeps-complete : (id : String) (a : ActiveCommand) → Keeps (complete id a)
  unfolding complete
  Keeps-complete id a =
      Keeps->>= _ _ (λ w. st.on_retire id w.sup)
        λ _.
          Keeps->>= _ _ (Keeps-catch _ (Keeps-await _))
            λ _. Keeps->>= _ _ (Keeps-audited _ _ _) λ _. Keeps-if _ _ (λ w. st.on_output _ w.sup)

  Keeps-finish_one : (id : String) (a : ActiveCommand) → Keeps (finish_one id a)
  unfolding finish_one
  Keeps-finish_one id a = Keeps->>= _ _ (λ w p. p) λ s. Keeps-if _ _ (Keeps-complete id a)

  Keeps-finish_each : (active : List (String × ActiveCommand)) → Keeps (finish_each active)
  unfolding finish_each
  Keeps-finish_each [] = λ w p. p
  Keeps-finish_each ((id, a) ∷ rest) =
      Keeps->>= _ _ (Keeps-finish_one id a) λ _. Keeps-finish_each rest

  Keeps-send_heartbeat : (pid_of : ℕ → Option ℕ) (now : ℕ) → Keeps (send_heartbeat pid_of now)
  unfolding send_heartbeat
  Keeps-send_heartbeat pid_of now =
      Keeps->>= _ _ (λ w. st.on_beat now w.sup) λ _. Keeps->>= _ _ (λ w p. p) λ s. Keeps-await _

  Keeps-beat : (pid_of : ℕ → Option ℕ) (now : ℕ) → Keeps (beat pid_of now)
  unfolding beat
  Keeps-beat pid_of now =
      Keeps->>= _ _ (λ w p. p) λ s. Keeps-if _ _ (Keeps-send_heartbeat pid_of now)

  Keeps-send_expire : (now : ℕ) → Keeps (send_expire now)
  unfolding send_expire
  Keeps-send_expire now = Keeps->>= _ _ (λ w. st.on_expire now w.sup) λ _. Keeps-await _

  Keeps-expire : (now : ℕ) → Keeps (expire now)
  unfolding expire
  Keeps-expire now = Keeps->>= _ _ (λ w p. p) λ s. Keeps-if _ _ (Keeps-send_expire now)

  Keeps-process_commands : (cs : List CoreCommand) (now : ℕ) → Keeps (process_commands cs now)
  unfolding process_commands
  Keeps-process_commands cs now = Keeps-process_from 5 cs now

  Keeps-finish_commands : Keeps finish_commands
  unfolding finish_commands
  Keeps-finish_commands = Keeps->>= _ _ (λ w p. p) λ s. Keeps-finish_each s.active

  Keeps-tick_body : (a : Answers) → Keeps (tick_body a)
  unfolding tick_body
  Keeps-tick_body a = Keeps->>= _ _ (Keeps-await _) λ _.
      Keeps->>= _ _ (λ w. st.on_config a.config w.sup)
        λ _. Keeps->>= _ _ (Keeps-await _) λ _.
          Keeps->>= _ _ (λ w. st.on_reconcile a.profiles a.now w.sup)
            λ _. Keeps->>= _ _ (Keeps-process_commands a.claims a.now) λ _.
              Keeps->>= _ _ (λ w. st.on_deadlines a.now w.sup)
                λ _.
                  Keeps->>= _ _ Keeps-finish_commands
                    λ _. Keeps->>= _ _ (Keeps-beat a.pid_of a.now) λ _. Keeps-expire a.now

  -- A predicate that every part keeps is kept by a tick.
  pub Keeps-tick : (a : Answers) (w : World) → P w.sup → P (tick a w).1.sup
  unfolding tick
  Keeps-tick a = Keeps-catch _ (Keeps-tick_body a)

  -- And by any number of ticks, with events between them.
  pub Keeps-run :
      (rounds : List (List Event × Answers)) (w : World) → P w.sup → P (run rounds w).sup
  unfolding run
  Keeps-run [] w p = p
  Keeps-run ((es, a) ∷ rounds) w p = Keeps-run rounds _ (Keeps-tick a _ (all_happen-P es w.sup p))
