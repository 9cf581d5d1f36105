-- ===== src/Agent/Outbox/Contents.antt =====
-- internal/agent/outbox/outbox.go: the directory as a map from jobs to their latest events.
use opensourcebackup.Prelude.{
  ==_iff, Bool, Bool-cases, List, Option, [], arith, false, if◌then◌else◌, inl, inr, none, refl,
  some, true, ℕ, ◌&&◌, ◌==◌, ◌∙◌, ◌∷◌, ◌≡◌,
}
use opensourcebackup.Agent.Outbox.{Event, EventFile, Outbox, WriteFault, ack, enqueue, file_name}
use opensourcebackup.Prelude.Table.{find, find-delete_where, find-deleted}

-- The specification: at most one event for each job.
abbrev pub EventMap : Type 0
EventMap = ℕ → Option Event

-- A call of the store, with what the file system does.
pub data OutboxCall : Type 0 where
  call_enqueue : Option WriteFault → ℕ → Event → OutboxCall
  call_ack : Bool → ℕ → OutboxCall

abbrev pub content_of : Option EventFile → Option Event
content_of none = none
content_of (some f) = f.content

abbrev pub contents : Outbox → EventMap
contents files job = content_of (find file_name job files)

unfoldable pub outbox_step : OutboxCall → Outbox → Outbox
outbox_step (call_enqueue fault now e) files = (enqueue fault now e files).1
outbox_step (call_ack removes job) files = ack removes job files

unfoldable pub outbox_run : List OutboxCall → Outbox → Outbox
outbox_run [] files = files
outbox_run (c ∷ cs) files = outbox_run cs (outbox_step c files)

abbrev pub stamped : ℕ → Event → Event
stamped now e = if e.created_at == 0 then record e { created_at = now } else e

unfoldable pub map_step : OutboxCall → EventMap → EventMap
map_step (call_enqueue (some _) now e) m k = m k
map_step (call_enqueue none now e) m k = if e.job_id == k then some (stamped now e) else m k
map_step (call_ack removes job) m k = if removes && (job == k) then none else m k

unfoldable pub map_run : List OutboxCall → EventMap → EventMap
map_run [] m = m
map_run (c ∷ cs) m = map_run cs (map_step c m)

pub find-ack :
    (job k : ℕ) (files : Outbox)
    → contents (ack true job files) k ≡ (if job == k then none else contents files k)
unfolding ack
find-ack job k files = elim (Bool-cases (job == k)) [
  | inl same ↦
      let eq : job ≡ k = (==_iff job k).0 same in rw (same, eq, find-deleted file_name k files) refl
  | inr differs ↦
      rw (differs, find-delete_where file_name job k files (ground (arith, differs))) refl
]

pub find-enqueue :
    (now k : ℕ) (e : Event) (files : Outbox)
    → contents (enqueue none now e files).1 k
      ≡ (if e.job_id == k then some (stamped now e) else contents files k)
unfolding enqueue find
find-enqueue now k e files = elim (Bool-cases (e.job_id == k)) [
  | inl same ↦ rw same refl
  | inr differs ↦
      rw (differs, find-delete_where file_name e.job_id k files (ground (arith, differs))) refl
]

map_step-refines :
    (c : OutboxCall) (files : Outbox) (k : ℕ)
    → contents (outbox_step c files) k ≡ map_step c (contents files) k
unfolding outbox_step map_step enqueue ack
map_step-refines (call_enqueue (some f) now e) files k = refl
map_step-refines (call_enqueue none now e) files k = find-enqueue now k e files
map_step-refines (call_ack true job) files k = find-ack job k files
map_step-refines (call_ack false job) files k = refl

-- Whatever calls are made, in whatever order and with whatever faults of the file system, the
-- directory holds for each job what the map from jobs to events holds after the same calls: the
-- event of the last Enqueue that succeeded, unless an Ack removed it since.
pub outbox_run_refines :
    (cs : List OutboxCall) (files : Outbox) (k : ℕ)
    → contents (outbox_run cs files) k ≡ map_run cs (contents files) k
unfolding outbox_run map_run
outbox_run_refines [] files k = refl
outbox_run_refines (c ∷ cs) files k =
    outbox_run_refines cs (outbox_step c files) k
    ∙ (λ i. map_run cs (λ other_job. map_step-refines c files other_job i) k)
