-- ===== src/Agent/Delivery/Kept.antt =====
-- internal/agent/agent.go, reportTerminal and drainOutbox: what becomes of a report that was written
-- to the outbox.
use opensourcebackup.Prelude.{
  ==_iff, ==_refl, All, Bool, Bool-cases, List, Option, [], ap, arith, false, inl, inr, none, refl,
  some, suc, sym, true, zero, ℕ, ◌==◌, ◌∙◌, ◌∷◌, ◌≡◌, ◌≢◌, ◌⊎◌,
}
use opensourcebackup.Agent.Client.{ClientError}
use opensourcebackup.Agent.Delivery.{
  AgentStep, ControlPlane, Desk, agent_run, agent_step, deliver, deliver_directly, drain,
  drain_listed, enqueued, report_terminal, settle, settles, step_drain, step_report, try_deliver,
  try_each,
}
use opensourcebackup.Agent.Delivery.Stored.{
  Filed, Stored, agent_step-Filed, contents-ack_other, list_events-Stored, outcome, outcome-stamped,
}
use opensourcebackup.Agent.Outbox.{Event, Outbox, WriteFault, enqueue, list_events}
use opensourcebackup.Agent.Outbox.Contents.{contents, find-enqueue, stamped}

abbrev SettledBy : Event → Event × Option ClientError → Type 0
SettledBy e (x, answer) = (outcome x ≡ outcome e) × (settles answer ≡ true)

-- The control plane took the event or refused it for good.
abbrev pub Settled : Event → List (Event × Option ClientError) → Type 0
Settled e [] = ⊥
Settled e (a ∷ answers) = SettledBy e a ⊎ Settled e answers

abbrev pub Holds : ℕ → Event → Outbox → Type 0
Holds id e files = (f : Event) × (contents files id ≡ some f) × (outcome f ≡ outcome e)

-- A later step that reports the end of the same job supersedes the event.
abbrev pub Spares : ℕ → AgentStep → Type 0
Spares id (step_report _ _ _ x) = x.job_id ≢ id
Spares id (step_drain _ _ _) = Unit

abbrev or_else_event : Event → Option Event → Event
or_else_event x none = x
or_else_event x (some f) = f

differs : (a b : ℕ) → a ≢ b → (a == b) ≡ false
differs a b ne = ground arith

module _ {S : Type 0} (cp : ControlPlane S) (id : ℕ) (e : Event) where
  -- The event of the job stands in the outbox, or was settled.
  abbrev pub Kept : Desk S → Type 0
  Kept d = Holds id e d.outbox ⊎ Settled e d.answers

  settle-Holds :
      (removes : Bool) (x : Event) (answer : Option ClientError) (s : S) (d : Desk S)
      → (x.job_id ≡ id → outcome x ≡ outcome e)
      → Holds id e d.outbox
      → Kept (settle cp removes x (answer, s) d)
  settle-Holds removes x answer s d same h = elim (Bool-cases (settles answer)) [
    | inr waits ↦ inl (rw waits h)
    | inl settled ↦ elim (Bool-cases (x.job_id == id)) [
      | inl own ↦ inr (inl (same ((==_iff x.job_id id).0 own), settled))
      | inr foreign ↦
          inl (h.0, rw (settled, contents-ack_other removes x.job_id id d.outbox foreign) h.1, h.2)
    ]
  ]

  try_deliver-Kept :
      (removes : Bool) (x : Event) (d : Desk S)
      → (x.job_id ≡ id → outcome x ≡ outcome e)
      → Kept d
      → Kept (try_deliver cp removes x d)
  unfolding try_deliver
  try_deliver-Kept removes x d same (inl h) =
      settle-Holds removes x (deliver cp x d.remote).0 (deliver cp x d.remote).1 d same h
  try_deliver-Kept removes x d same (inr h) = inr (inr h)

  try_each-Kept :
      (n : ℕ) (removes : Bool) (es : List Event) (d : Desk S)
      → All (λ x. x.job_id ≡ id → outcome x ≡ outcome e) es
      → Kept d
      → Kept (try_each cp n removes es d)
  unfolding try_each
  try_each-Kept zero removes es d a h = h
  try_each-Kept (suc n) removes [] d a h = h
  try_each-Kept (suc n) removes (x ∷ es) d a h =
      try_each-Kept n removes es (try_deliver cp removes x d) a.1
        (try_deliver-Kept removes x d a.0 h)

  try_each-Settled :
      (n : ℕ) (removes : Bool) (es : List Event) (d : Desk S)
      → Settled e d.answers
      → Settled e (try_each cp n removes es d).answers
  unfolding try_each try_deliver
  try_each-Settled zero removes es d h = h
  try_each-Settled (suc n) removes [] d h = h
  try_each-Settled (suc n) removes (x ∷ es) d h =
      try_each-Settled n removes es (try_deliver cp removes x d) (inr h)

  drain_listed-Holds :
      (n : ℕ) (removes : Bool) (o : Option (List Event)) (d : Desk S) (f : Event)
      → ((es : List Event) → o ≡ some es → All (Stored d.outbox) es)
      → contents d.outbox id ≡ some f
      → outcome f ≡ outcome e
      → Kept (drain_listed cp n removes o d)
  drain_listed-Holds n removes none d f stored there same = inl (f, there, same)
  drain_listed-Holds n removes (some es) d f stored there same =
      try_each-Kept n removes es d (own_events es (stored es refl)) (inl (f, there, same))
    where
      own_events :
          (xs : List Event)
          → All (Stored d.outbox) xs
          → All (λ x. x.job_id ≡ id → outcome x ≡ outcome e) xs
      own_events [] h = tt
      own_events (x ∷ xs) h = (
        λ own.
            let twice : some x ≡ some f = sym h.0 ∙ ap (contents d.outbox) own ∙ there in
            ap (λ o. outcome (or_else_event x o)) twice ∙ same,
        own_events xs h.1,
      )

  drain-Kept :
      (readable : Bool) (n : ℕ) (removes : Bool) (d : Desk S)
      → Filed d.outbox
      → Kept d
      → Kept (drain cp readable n removes d)
  unfolding drain
  drain-Kept readable n removes d w (inl (f, there, same)) =
      drain_listed-Holds n removes (list_events readable d.outbox) d f
        (λ es h. list_events-Stored readable d.outbox es w h) there same
  drain-Kept readable n removes d w (inr h) = inr (listed (list_events readable d.outbox))
    where
      listed : (o : Option (List Event)) → Settled e (drain_listed cp n removes o d).answers
      listed none = h
      listed (some es) = try_each-Settled n removes es d h

  enqueue-Holds :
      (fault : Option WriteFault) (now : ℕ) (x : Event) (files : Outbox)
      → x.job_id ≢ id
      → Holds id e files
      → Holds id e (enqueue fault now x files).1
  unfolding enqueue
  enqueue-Holds (some _) now x files foreign h = h
  enqueue-Holds none now x files foreign (f, there, same) =
      (f, find-enqueue now id x files ∙ rw (differs x.job_id id foreign) there, same)

  enqueued-Kept :
      (removes : Bool) (x : Event) (r : Bool × Outbox) (d : Desk S)
      → x.job_id ≢ id
      → Kept (record d { outbox = r.1 })
      → Kept (enqueued cp removes x r d)
  unfolding deliver_directly
  enqueued-Kept removes x (true, files) d foreign k =
      try_deliver-Kept removes x (record d { outbox = files }) (λ own. absurd (foreign own)) k
  enqueued-Kept removes x (false, files) d foreign (inl k) = inl k
  enqueued-Kept removes x (false, files) d foreign (inr k) = inr (inr k)

  report-Kept :
      (fault : Option WriteFault) (removes : Bool) (now : ℕ) (x : Event) (d : Desk S)
      → x.job_id ≢ id
      → Kept d
      → Kept (report_terminal cp true fault removes now x d)
  unfolding report_terminal
  report-Kept fault removes now x d foreign h =
      enqueued-Kept removes x (enqueue fault now x d.outbox) d foreign (queued h)
    where
      queued : Kept d → Kept (record d { outbox = (enqueue fault now x d.outbox).1 })
      queued (inl held) = inl (enqueue-Holds fault now x d.outbox foreign held)
      queued (inr settled) = inr settled

  agent_step-Kept :
      (st : AgentStep) (d : Desk S)
      → Spares id st
      → Filed d.outbox
      → Kept d
      → Kept (agent_step cp st d)
  unfolding agent_step
  agent_step-Kept (step_report fault removes now x) d foreign w h =
      report-Kept fault removes now x d foreign h
  agent_step-Kept (step_drain readable n removes) d foreign w h =
      drain-Kept readable n removes d w h

module _ {S : Type 0} (cp : ControlPlane S) where
  agent_run-Kept :
      (sts : List AgentStep) (e : Event) (d : Desk S)
      → All (Spares e.job_id) sts
      → Filed d.outbox
      → Kept cp e.job_id e d
      → Kept cp e.job_id e (agent_run cp sts d)
  unfolding agent_run
  agent_run-Kept [] e d foreign w h = h
  agent_run-Kept (st ∷ sts) e d foreign w h =
      agent_run-Kept sts e (agent_step cp st d) foreign.1 (agent_step-Filed cp st d w)
        (agent_step-Kept cp e.job_id e st d foreign.0 w h)

  -- Where each file of the outbox is named for the job of its event, a terminal report that was
  -- written to the outbox is never lost: after any later drains, whole or cut short, and reports of
  -- other jobs, with whatever answers and faults of the file system, the outbox still holds the
  -- event, or the control plane was sent it and accepted it or refused it for good.
  pub report_terminal-Kept :
      (removes : Bool) (now : ℕ) (e : Event) (sts : List AgentStep) (d : Desk S)
      → Filed d.outbox
      → All (Spares e.job_id) sts
      → Kept cp e.job_id e (agent_run cp (step_report none removes now e ∷ sts) d)
  unfolding agent_run agent_step report_terminal enqueue
  report_terminal-Kept removes now e sts d w foreign =
      agent_run-Kept sts e (agent_step cp (step_report none removes now e) d) foreign
        (agent_step-Filed cp (step_report none removes now e) d w)
        (try_deliver-Kept cp e.job_id e removes e
          (record d { outbox = (enqueue none now e d.outbox).1 }) (λ _. refl)
          (inl (
            stamped now e,
            find-enqueue now e.job_id e d.outbox ∙ rw (==_refl e.job_id) refl,
            outcome-stamped now e,
          )))
