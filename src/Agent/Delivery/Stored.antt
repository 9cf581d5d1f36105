-- ===== src/Agent/Delivery/Stored.antt =====
-- internal/agent/agent.go and outbox.go: each file of the outbox keeps the name of its event's job,
-- whatever the agent does, and the listed events are those that stand in the outbox.
use opensourcebackup.Prelude.{
  All, All-order_by, Bool, Bool-cases, List, Option, Option-cases, [], ap, arith, false, inl, inr,
  none, refl, some, subst, suc, true, zero, ℕ, ◌==◌, ◌∙◌, ◌∷◌, ◌≡◌,
}
use opensourcebackup.Agent.Delivery.{
  AgentStep, ControlPlane, Desk, agent_step, deliver, deliver_directly, drain, drain_listed,
  enqueued, report_terminal, settles, step_drain, step_report, try_deliver, try_each,
}
use opensourcebackup.Agent.Outbox.{
  Event, EventFile, Outbox, WriteFault, ack, created_before, enqueue, file_name, list_events,
  read_events,
}
use opensourcebackup.Agent.Outbox.Contents.{content_of, contents, find-ack, stamped}
use opensourcebackup.Prelude.Table.{
  All-delete_where, Unique, Unique-find, delete_where-Unique, find, find-deleted,
}

-- What an event says of its job; Enqueue stamps the time.
abbrev pub outcome : Event → Event
outcome e = record e { created_at = 0 }

-- Each file has a name of its own, the job of the event in it.
abbrev Named : EventFile → Type 0
Named f = (e : Event) → f.content ≡ some e → e.job_id ≡ f.name

abbrev pub Filed : Outbox → Type 0
Filed files = Unique file_name files × All Named files

abbrev pub Stored : Outbox → Event → Type 0
Stored files x = contents files x.job_id ≡ some x

read_events-Stored :
    (files some_files : Outbox)
    → All (λ f. find file_name f.name files ≡ some f) some_files
    → All Named some_files
    → All (Stored files) (read_events some_files)
unfolding read_events
read_events-Stored files [] h n = tt
read_events-Stored files (f ∷ fs) h n =
    let rest = read_events-Stored files fs h.1 n.1 in
    elim (Option-cases f.content) [
      | inl bad ↦ rw bad rest
      | inr (e, read) ↦
          rw read (ap (λ k. contents files k) (n.0 e read) ∙ ap content_of h.0 ∙ read, rest)
    ]

pub list_events-Stored :
    (readable : Bool) (files : Outbox) (es : List Event)
    → Filed files
    → list_events readable files ≡ some es
    → All (Stored files) es
unfolding list_events
list_events-Stored true files es (u, n) h =
    subst (λ o. All (Stored files) (listed o)) h
      (All-order_by (Stored files) created_before (read_events files)
        (read_events-Stored files files (Unique-find file_name files u) n))
  where
    listed : Option (List Event) → List Event
    listed none = []
    listed (some xs) = xs
list_events-Stored false files es w h = absurd (ground arith)

ack-Filed : (removes : Bool) (id : ℕ) (files : Outbox) → Filed files → Filed (ack removes id files)
unfolding ack
ack-Filed true id files (u, n) =
    (delete_where-Unique file_name (λ f. f.name == id) files u, All-delete_where Named _ files n)
ack-Filed false id files w = w

pub outcome-stamped : (now : ℕ) (e : Event) → outcome (stamped now e) ≡ outcome e
outcome-stamped now e = elim (Bool-cases (e.created_at == 0)) [
  | inl unset_time ↦ rw unset_time refl
  | inr set_time ↦ rw set_time refl
]

stamped-job_id : (now : ℕ) (e : Event) → (stamped now e).job_id ≡ e.job_id
stamped-job_id now e = ap (λ x. x.job_id) (outcome-stamped now e)

pub enqueue-Filed :
    (fault : Option WriteFault) (now : ℕ) (e : Event) (files : Outbox)
    → Filed files
    → Filed (enqueue fault now e files).1
unfolding enqueue
enqueue-Filed (some _) now e files w = w
enqueue-Filed none now e files (u, n) = (
  (find-deleted file_name e.job_id files, delete_where-Unique file_name _ files u),
  (λ x h. cc (h, stamped-job_id now e), All-delete_where Named _ files n),
)

pub contents-ack_other :
    (removes : Bool) (id k : ℕ) (files : Outbox)
    → (id == k) ≡ false
    → contents (ack removes id files) k ≡ contents files k
unfolding ack
contents-ack_other true id k files h = find-ack id k files ∙ rw h refl
contents-ack_other false id k files h = refl

module _ {S : Type 0} (cp : ControlPlane S) where
  try_deliver-Filed :
      (removes : Bool) (x : Event) (d : Desk S)
      → Filed d.outbox
      → Filed (try_deliver cp removes x d).outbox
  unfolding try_deliver
  try_deliver-Filed removes x d w = elim (Bool-cases (settles (deliver cp x d.remote).0)) [
    | inl settled ↦ rw settled (ack-Filed removes x.job_id d.outbox w)
    | inr waits ↦ rw waits w
  ]

  try_each-Filed :
      (n : ℕ) (removes : Bool) (es : List Event) (d : Desk S)
      → Filed d.outbox
      → Filed (try_each cp n removes es d).outbox
  unfolding try_each
  try_each-Filed zero removes es d w = w
  try_each-Filed (suc n) removes [] d w = w
  try_each-Filed (suc n) removes (x ∷ es) d w =
      try_each-Filed n removes es (try_deliver cp removes x d) (try_deliver-Filed removes x d w)

  enqueued-Filed :
      (removes : Bool) (x : Event) (r : Bool × Outbox) (d : Desk S)
      → Filed r.1
      → Filed (enqueued cp removes x r d).outbox
  unfolding deliver_directly
  enqueued-Filed removes x (true, files) d w =
      try_deliver-Filed removes x (record d { outbox = files }) w
  enqueued-Filed removes x (false, files) d w = w

  drain_listed-Filed :
      (n : ℕ) (removes : Bool) (o : Option (List Event)) (d : Desk S)
      → Filed d.outbox
      → Filed (drain_listed cp n removes o d).outbox
  drain_listed-Filed n removes none d w = w
  drain_listed-Filed n removes (some es) d w = try_each-Filed n removes es d w

  pub agent_step-Filed :
      (st : AgentStep) (d : Desk S) → Filed d.outbox → Filed (agent_step cp st d).outbox
  unfolding agent_step report_terminal drain
  agent_step-Filed (step_report fault removes now x) d w =
      enqueued-Filed removes x (enqueue fault now x d.outbox) d
        (enqueue-Filed fault now x d.outbox w)
  agent_step-Filed (step_drain readable n removes) d w =
      drain_listed-Filed n removes (list_events readable d.outbox) d w
