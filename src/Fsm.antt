-- ===== src/Fsm.antt =====
-- The finite state machine library (asap-fsm, a submodule) that Tokenizer and the parser run on.
-- Its code is not in this repository: `Engine` is a parameter of everything that uses it, and
-- `IsEngine` states its documented behaviour for the actions that this repository uses.
pub mod Reference
use asap_clap.Base.{◌≡◌, Bool, Text, Outcome, done, fault, Fault}

-- `asap::fsm::Status`
pub data Status : Type 0 where
  continue terminate reissue_event : Status
  terminate_with_error : Text → Status

-- What `Handle` returns. `transition_to t true` is `TransitionTo<T>(data)`, and `transition_to t
-- false` is `TransitionTo<T>{}`.
pub data Action (S : Type 0) : Type 0 where
  do_nothing : Action S
  report_error : Text → Action S
  transition_to : S → Bool → Action S

-- The members that the states of one machine declare, over its events `E` and the memory `M` that
-- its states hold. The Boolean of `on_enter` says whether the transition brings data.
pub record Handlers (S E M : Type 0) : Type 0 where
  pub handle : S → E → M → Outcome (Action S × M)
  pub on_leave : S → E → M → Outcome (Status × M)
  pub on_enter : S → E → Bool → M → Outcome (Status × M)

-- `StateMachine<...>::Handle(event)` in a current state: the status, the next state, the memory.
abbrev pub Engine : Type 1
Engine = (S E M : Type 0) → Handlers S E M → E → S → M → Outcome (Status × S × M)

-- One event: the current state's `Handle` picks an action. `DoNothing` goes on in the same state.
-- `ReportError` ends with the error. `TransitionTo` calls `OnLeave` of the old state, and, if that
-- goes on, `OnEnter` of the new one, whose status is the result; if not, its status is.
pub record IsEngine (engine : Engine) : Type 1 where
  pub handle_fault :
      (S E M : Type 0) (h : Handlers S E M) (e : E) (s : S) (m : M) (x : Fault)
      → h.handle s e m ≡ fault x
      → engine S E M h e s m ≡ fault x
  pub handle-do_nothing :
      (S E M : Type 0) (h : Handlers S E M) (e : E) (s : S) (m m1 : M)
      → h.handle s e m ≡ done (do_nothing, m1)
      → engine S E M h e s m ≡ done (continue, s, m1)
  pub handle-report_error :
      (S E M : Type 0) (h : Handlers S E M) (e : E) (s : S) (m m1 : M) (why : Text)
      → h.handle s e m ≡ done (report_error why, m1)
      → engine S E M h e s m ≡ done (terminate_with_error why, s, m1)
  pub leave_fault :
      (S E M : Type 0) (h : Handlers S E M) (e : E) (s t : S) (b : Bool) (m m1 : M) (x : Fault)
      → h.handle s e m ≡ done (transition_to t b, m1)
      → h.on_leave s e m1 ≡ fault x
      → engine S E M h e s m ≡ fault x
  pub leave_stops :
      (S E M : Type 0) (h : Handlers S E M) (e : E) (s t : S) (b : Bool) (m m1 m2 : M)
      (status : Status)
      → h.handle s e m ≡ done (transition_to t b, m1)
      → h.on_leave s e m1 ≡ done (status, m2)
      → ¬ (status ≡ continue)
      → engine S E M h e s m ≡ done (status, s, m2)
  pub enter_fault :
      (S E M : Type 0) (h : Handlers S E M) (e : E) (s t : S) (b : Bool) (m m1 m2 : M) (x : Fault)
      → h.handle s e m ≡ done (transition_to t b, m1)
      → h.on_leave s e m1 ≡ done (continue, m2)
      → h.on_enter t e b m2 ≡ fault x
      → engine S E M h e s m ≡ fault x
  pub enter_status :
      (S E M : Type 0) (h : Handlers S E M) (e : E) (s t : S) (b : Bool) (m m1 m2 m3 : M)
      (status : Status)
      → h.handle s e m ≡ done (transition_to t b, m1)
      → h.on_leave s e m1 ≡ done (continue, m2)
      → h.on_enter t e b m2 ≡ done (status, m3)
      → engine S E M h e s m ≡ done (status, t, m3)
