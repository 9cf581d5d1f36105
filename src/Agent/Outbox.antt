-- ===== src/Agent/Outbox.antt =====
-- internal/agent/outbox/outbox.go: the terminal events that wait for delivery, one file for each
-- job. A directory is the list of its files. What the file system refuses is an argument.
pub mod Contents
use opensourcebackup.Prelude.{
  Bool, List, Option, String, [], false, if◌then◌else◌, length, ltb, none, order_by, some, true, ℕ,
  ◌==◌, ◌∷◌,
}
use opensourcebackup.Prelude.Table.{delete_where}

pub data Kind : Type 0 where
  kind_complete kind_fail kind_cancelled : Kind
  kind_other : String → Kind

pub record Event : Type 0 where
  pub job_id : ℕ
  pub kind : Kind
  pub snapshot_id : String
  pub bytes : ℕ
  pub paths : List String
  pub reason : String
  pub created_at : ℕ

-- A file `<job>.json` with the event in it, or with what cannot be read or decoded.
pub record EventFile : Type 0 where
  pub name : ℕ
  pub content : Option Event

abbrev pub file_name : EventFile → ℕ
file_name f = f.name

abbrev pub Outbox : Type 0
Outbox = List EventFile

-- The step of Enqueue that fails; a file with the suffix .tmp that is left behind is never read.
pub data WriteFault : Type 0 where
  marshal_fault write_fault rename_fault : WriteFault

abbrev stamp : ℕ → Event → Event
stamp now e = if e.created_at == 0 then record e { created_at = now } else e

-- os.Rename puts the file in the place of one with its name.
abbrev rename_to : EventFile → Outbox → Outbox
rename_to f files = f ∷ delete_where (λ g. g.name == f.name) files

-- Enqueue: the Boolean says whether the error is nil.
unfoldable pub enqueue : Option WriteFault → ℕ → Event → Outbox → Bool × Outbox
enqueue (some _) now e files = (false, files)
enqueue none now e files =
    (true, rename_to (record { name = e.job_id; content = some (stamp now e) }) files)

-- The events in the order in which os.ReadDir lists the files.
unfoldable pub read_events : Outbox → List Event
read_events [] = []
read_events (f ∷ files) = elim f.content [
  | none ↦ read_events files
  | some e ↦ e ∷ read_events files
]

abbrev pub created_before : Event → Event → Bool
created_before x y = ltb x.created_at y.created_at

-- `readable` is false where os.ReadDir fails.
unfoldable pub list_events : Bool → Outbox → Option (List Event)
list_events readable files =
    if readable then some (order_by created_before (read_events files)) else none

-- Ack of a file that is not there is no error; where os.Remove fails the file stays.
unfoldable pub ack : Bool → ℕ → Outbox → Outbox
ack removes job files = if removes then delete_where (λ f. f.name == job) files else files

abbrev length_of : Option (List Event) → Option ℕ
length_of none = none
length_of (some es) = some (length es)

unfoldable pub len : Bool → Outbox → Option ℕ
len readable files = length_of (list_events readable files)
