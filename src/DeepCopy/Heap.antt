-- ===== src/DeepCopy/Heap.antt =====
-- The memory that copies are made in: cells that are written once they are allocated, in order.
use cluster_api_provider_bmc.Base.{ℕ, suc, String, Bool, List, ◌==◌, nat_eq, if◌then◌else◌}
use cluster_api_provider_bmc.Api.Machine.{MachineStatusError, NodeAddress, ObjectReference}
use cluster_api_provider_bmc.DeepCopy.Objects.{Cluster, Machine, Template, Tag}

-- What a pointer, a slice or a map refers to.
pub data Cell : Type 0 where
  text : String → Cell
  flag : Bool → Cell
  reason : MachineStatusError → Cell
  reference : ObjectReference → Cell
  texts : List String → Cell
  addresses : List NodeAddress → Cell
  tags : List Tag → Cell
  entries : List (String × String) → Cell
  clusters : List Cluster → Cell
  machines : List Machine → Cell
  templates : List Template → Cell

pub record Heap : Type 0 where
  pub next : ℕ
  pub cell : ℕ → Cell

abbrev pub update : (ℕ → Cell) → ℕ → Cell → ℕ → Cell
update f p c q = if p == q then c else f q

-- `*p = c`
unfoldable pub write : ℕ → Cell → Heap → Heap
write p c h = record h { cell = update h.cell p c }

-- A step that makes or writes cells, and returns a value.
abbrev pub Copying : Type 0 → Type 0
Copying A = Heap → A × Heap

abbrev pub pure : {A : Type 0} → A → Copying A
pure a h = (a, h)

infixl 5 ◌>>=◌
abbrev pub ◌>>=◌ : {A B : Type 0} → Copying A → (A → Copying B) → Copying B
◌>>=◌ m f h = let (a, h') = m h in f a h'

-- `new` and `make`, with the value that is stored next.
unfoldable pub allocate : Cell → Copying ℕ
allocate c h = (h.next, record { next = suc h.next; cell = update h.cell h.next c })
