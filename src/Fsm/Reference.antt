-- ===== src/Fsm/Reference.antt =====
-- An engine that computes, with the documented behaviour of asap-fsm, at which the proofs on
-- clap/src/parser run; and its relation to every other engine.
use asap_clap.Base.{◌≡◌, refl, Bool, Outcome, done, fault, ◌>>=◌}
use asap_clap.Fsm.{
  Status, continue, terminate, reissue_event, terminate_with_error, Action, do_nothing,
  report_error, transition_to, Handlers, Engine, IsEngine,
}

module _ {S E M : Type 0} where
  abbrev pub after_leave : Handlers S E M → E → S → S → Bool → Status × M → Outcome (Status × S × M)
  after_leave h e s t b (continue, m) = h.on_enter t e b m >>= λ r. done (r.0, t, r.1)
  after_leave h e s t b (terminate, m) = done (terminate, s, m)
  after_leave h e s t b (reissue_event, m) = done (reissue_event, s, m)
  after_leave h e s t b (terminate_with_error why, m) = done (terminate_with_error why, s, m)

  abbrev pub execute : Handlers S E M → E → S → Action S × M → Outcome (Status × S × M)
  execute h e s (do_nothing, m) = done (continue, s, m)
  execute h e s (report_error why, m) = done (terminate_with_error why, s, m)
  execute h e s (transition_to t b, m) = h.on_leave s e m >>= after_leave h e s t b

abbrev pub reference : Engine
reference S E M h e s m = h.handle s e m >>= execute h e s

leave_stops_lem :
    {S E M : Type 0} (h : Handlers S E M) (e : E) (s t : S) (b : Bool) (m : M) (status : Status)
    → ¬ (status ≡ continue)
    → after_leave h e s t b (status, m) ≡ done (status, s, m)
leave_stops_lem h e s t b m continue n = absurd (n refl)
leave_stops_lem h e s t b m terminate n = refl
leave_stops_lem h e s t b m _ n = refl

pub reference-IsEngine : IsEngine reference
reference-IsEngine = record {
  handle_fault = λ S E M h e s m x p. rw p;
  handle-do_nothing = λ S E M h e s m m1 p. rw p;
  handle-report_error = λ S E M h e s m m1 why p. rw p;
  leave_fault = λ S E M h e s t b m m1 x p q. rw p (rw q);
  leave_stops =
      λ S E M h e s t b m m1 m2 status p q n. rw p (rw q (leave_stops_lem h e s t b m2 status n));
  enter_fault = λ S E M h e s t b m m1 m2 x p q r. rw p (rw q (rw r));
  enter_status = λ S E M h e s t b m m1 m2 m3 status p q r. rw p (rw q (rw r));
}

module _ {engine : Engine} (law : IsEngine engine) {S E M : Type 0} (h : Handlers S E M) (e : E)
    (s : S) where
  after_enter :
      (t : S) (b : Bool) (m m1 m2 : M) (r : Outcome (Status × M))
      → h.handle s e m ≡ done (transition_to t b, m1)
      → h.on_leave s e m1 ≡ done (continue, m2)
      → h.on_enter t e b m2 ≡ r
      → engine S E M h e s m ≡ (r >>= λ r. done (r.0, t, r.1))
  after_enter t b m m1 m2 (done (st, m3)) p q r =
      law.enter_status S E M h e s t b m m1 m2 m3 st p q r
  after_enter t b m m1 m2 (fault x) p q r = law.enter_fault S E M h e s t b m m1 m2 x p q r

  after_handle :
      (t : S) (b : Bool) (m m1 : M) (r : Outcome (Status × M))
      → h.handle s e m ≡ done (transition_to t b, m1)
      → h.on_leave s e m1 ≡ r
      → engine S E M h e s m ≡ (r >>= after_leave h e s t b)
  after_handle t b m m1 (fault x) p q = law.leave_fault S E M h e s t b m m1 x p q
  after_handle t b m m1 (done (continue, m2)) p q = after_enter t b m m1 m2 _ p q refl
  after_handle t b m m1 (done (terminate, m2)) p q =
      law.leave_stops S E M h e s t b m m1 m2 _ p q (λ x. cc)
  after_handle t b m m1 (done (reissue_event, m2)) p q =
      law.leave_stops S E M h e s t b m m1 m2 _ p q (λ x. cc)
  after_handle t b m m1 (done (terminate_with_error w, m2)) p q =
      law.leave_stops S E M h e s t b m m1 m2 _ p q (λ x. cc)

  engine-reference_at :
      (m : M) (r : Outcome (Action S × M))
      → h.handle s e m ≡ r
      → engine S E M h e s m ≡ (r >>= execute h e s)
  engine-reference_at m (fault x) p = law.handle_fault S E M h e s m x p
  engine-reference_at m (done (do_nothing, m1)) p = law.handle-do_nothing S E M h e s m m1 p
  engine-reference_at m (done (report_error w, m1)) p = law.handle-report_error S E M h e s m m1 w p
  engine-reference_at m (done (transition_to t b, m1)) p = after_handle t b m m1 _ p refl

-- The documented behaviour leaves an engine no choice.
pub engine-reference : {engine : Engine} → IsEngine engine → engine ≡ reference
engine-reference law = λ i S E M h e s m. engine-reference_at law h e s m _ refl i
