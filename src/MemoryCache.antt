-- ===== src/MemoryCache.antt =====
-- `MemoryCache` of src/drift/server/memory_cache.py, without its paged mode: the counters that the
-- connection handlers share, the pipe to the runtime and its tensors. A call of `allocate_cache` is a
-- task; `advance` runs a task up to its next point of interleaving.
pub mod Accounting
pub mod Handles
pub mod Race
pub mod Serial
pub mod Tests
use community_ai.Prelude.{
  ℕ, zero, suc, ◌+◌, ◌-◌, ◌*◌, ◌%◌, Bool, true, false, not, ◌&&◌, ◌||◌, Option, none, some, List,
  [], ◌∷◌, ◌++◌, leb, ltb, ◌==◌, if◌then◌else◌, length, lookup, put, is_some,
}

-- `ctypes.c_int64`: a counter is its 64 bits, read as a number with a sign.
abbrev pub word : ℕ
word = 0x1_0000_0000_0000_0000

abbrev pub half : ℕ
half = 0x8000_0000_0000_0000

unfoldable pub add64 : ℕ → ℕ → ℕ
add64 c n = (c + n) % word

unfoldable pub sub64 : ℕ → ℕ → ℕ
sub64 c n = (c + (word - n % word)) % word

-- What the sign takes off the bits.
unfoldable pub sign : ℕ → ℕ
sign c = if ltb c half then 0 else word

-- Where a task stands: before and inside `_lock_acquire_memory`, in `_wait_until_available`, out of
-- the lock, off the queue, holding its handles, and at its end (also by an exception). A call that
-- timed out may leave a wait for the lock behind, `abandoned`, which then takes it for good, `lost`.
pub data Phase : Type 0 where
  enqueued locked blocked passed admitted abandoned lost : Phase
  allocated : List ℕ → Phase
  finished : Phase

-- `immediate` is a timeout of 0.
pub record Task : Type 0 where
  pub alloc_size : ℕ
  pub num_descriptors : ℕ
  pub immediate : Bool
  pub phase : Phase

-- What goes through the pipe: handles with descriptors, or handles to delete.
pub data Message : Type 0 where
  create delete : List ℕ → Message

pub record Cache : Type 0 where
  pub max_size : ℕ
  pub current_size : ℕ
  pub enqueued_size : ℕ
  pub handle_counter : ℕ
  pub lock : Option ℕ
  pub freed_event : Bool
  pub pipe : List Message
  pub allocated_tensors : ℕ → Bool
  pub tasks : List (ℕ × Task)

unfoldable pub init : ℕ → Cache
init max_size = record {
  max_size = max_size;
  current_size = 0;
  enqueued_size = 0;
  handle_counter = 0;
  lock = none;
  freed_event = false;
  pipe = [];
  allocated_tensors = λ handle. false;
  tasks = [];
}

unfoldable pub add_size : ℕ → Option ℕ → ℕ
add_size size none = size
add_size size (some total) = total + size

-- alloc_size_by_device, of descriptors with their device and their size in bytes
unfoldable pub size_by_device : List (ℕ × ℕ) → List (ℕ × ℕ) → List (ℕ × ℕ)
unfolding add_size
size_by_device [] sizes = sizes
size_by_device ((device, size) ∷ descriptors) sizes =
    size_by_device descriptors (put device (add_size size (lookup device sizes)) sizes)

unfoldable pub max_size_of : List (ℕ × ℕ) → ℕ
max_size_of [] = 0
max_size_of ((device, size) ∷ sizes) =
    let rest = max_size_of sizes in if ltb rest size then size else rest

-- get_allocation_size
unfoldable pub get_allocation_size : List (ℕ × ℕ) → ℕ
unfolding size_by_device max_size_of
get_allocation_size descriptors = max_size_of (size_by_device descriptors [])

-- tuple(counter + i for i in range(n)); a handle is named by its distance from -2 ** 63
unfoldable pub new_handles : ℕ → ℕ → List ℕ
new_handles counter zero = []
new_handles counter (suc n) = counter ∷ new_handles (counter + 1) n

unfoldable pub move_to : ℕ → Task → Phase → Cache → Cache
move_to i t phase s = record s { tasks = put i (record t { phase = phase }) s.tasks }

-- The size leaves the queue, by an exception or by an allocation.
unfoldable pub dequeue : Task → Cache → Cache
unfolding sub64
dequeue t s = record s { enqueued_size = sub64 s.enqueued_size t.alloc_size }

unfoldable pub fail : ℕ → Task → Cache → Cache
unfolding move_to dequeue
fail i t s = move_to i t finished (dequeue t s)

unfoldable pub unlock : Cache → Cache
unlock s = record s { lock = none }

-- The start of `_wait_for_free_memory`.
unfoldable pub enter : ℕ → Task → Cache → Cache
unfolding add64
enter i t s = record s {
  enqueued_size = add64 s.enqueued_size t.alloc_size;
  tasks = put i (record t { phase = enqueued }) s.tasks;
}

unfoldable pub try_lock : ℕ → Task → Cache → Option ℕ → Cache
unfolding move_to
try_lock i t s none = record (move_to i t locked s) { lock = some i }
try_lock i t s (some holder) = s

-- current_size + enqueued_size > max_size
unfoldable pub is_full : Cache → Bool
unfolding sign
is_full s =
    ltb (s.max_size + (sign s.current_size + sign s.enqueued_size))
      (s.current_size + s.enqueued_size)

-- current_size + alloc_size <= max_size
unfoldable pub has_room : Cache → Task → Bool
unfolding sign
has_room s t = leb (s.current_size + t.alloc_size) (s.max_size + sign s.current_size)

-- From the test for an immediate allocation to the lock; a task without the lock waits for it.
unfoldable pub from_enqueued : ℕ → Task → Cache → Cache
unfolding fail try_lock is_full
from_enqueued i t s = if t.immediate && is_full s then fail i t s else try_lock i t s s.lock

-- Under the lock: there is room, or the task gives up or waits.
unfoldable pub from_locked : ℕ → Task → Cache → Cache
unfolding fail unlock move_to has_room
from_locked i t s =
    if has_room s t
    then move_to i t passed (unlock s)
    else if t.immediate || ltb s.max_size t.alloc_size
    then fail i t (unlock s)
    else move_to i t blocked s

-- The loop of `_wait_until_available`: room ends it, and the event is cleared for another round.
unfoldable pub from_blocked : ℕ → Task → Cache → Cache
unfolding unlock move_to has_room
from_blocked i t s =
    if has_room s t then move_to i t passed (unlock s) else record s { freed_event = false }

-- The rest of `_schedule_alloc`, under `_lock_metadata`.
unfoldable pub from_admitted : ℕ → Task → Cache → Cache
unfolding new_handles move_to add64
from_admitted i t s =
    let handles = new_handles (add64 s.handle_counter half) t.num_descriptors in
    move_to i t (allocated handles) (record s {
      current_size = add64 s.current_size t.alloc_size;
      handle_counter = add64 s.handle_counter t.num_descriptors;
      pipe = s.pipe ++ create handles ∷ [];
    })

-- _free
unfoldable pub free : ℕ → Task → List ℕ → Cache → Cache
unfolding move_to sub64
free i t handles s = move_to i t finished (record s {
  current_size = sub64 s.current_size t.alloc_size;
  pipe = s.pipe ++ delete handles ∷ [];
  freed_event = true;
})

unfoldable pub lose_lock : ℕ → Task → Cache → Option ℕ → Cache
unfolding move_to
lose_lock i t s none = record (move_to i t lost s) { lock = some i }
lose_lock i t s (some holder) = s

unfoldable pub advance_from : ℕ → Task → Phase → Cache → Cache
unfolding from_enqueued from_locked from_blocked from_admitted free dequeue move_to lose_lock
advance_from i t enqueued s = from_enqueued i t s
advance_from i t locked s = from_locked i t s
advance_from i t blocked s = from_blocked i t s
advance_from i t passed s = move_to i t admitted (dequeue t s)
advance_from i t admitted s = from_admitted i t s
advance_from i t (allocated handles) s = free i t handles s
advance_from i t abandoned s = lose_lock i t s s.lock
advance_from i t lost s = s
advance_from i t finished s = s

-- A timeout reaches a task that waits for the lock or for memory. Whether a wait for the lock is left
-- behind is up to hivemind's `enter_asynchronously`.
unfoldable pub time_out_from : Bool → ℕ → Task → Phase → Cache → Cache
unfolding fail unlock move_to dequeue
time_out_from leaves i t enqueued s =
    if leaves then move_to i t abandoned (dequeue t s) else fail i t s
time_out_from leaves i t blocked s = fail i t (unlock s)
time_out_from leaves i t _ s = s

unfoldable pub elem : ℕ → List ℕ → Bool
elem a [] = false
elem a (x ∷ xs) = if x == a then true else elem a xs

unfoldable pub receive : Message → (ℕ → Bool) → ℕ → Bool
unfolding elem
receive (create handles) tensors h = elem h handles || tensors h
receive (delete handles) tensors h = not (elem h handles) && tensors h

-- The loop of `use_cache` over the pipe.
unfoldable pub drain : List Message → (ℕ → Bool) → ℕ → Bool
unfolding receive
drain [] tensors = tensors
drain (m ∷ ms) tensors = drain ms (receive m tensors)

unfoldable pub use_cache : Cache → Cache
unfolding drain
use_cache s = record s { pipe = []; allocated_tensors = drain s.pipe s.allocated_tensors }

-- What happens next: a new task, a task going on or timing out, or a call of the runtime.
pub data Move : Type 0 where
  enters : ℕ → Task → Move
  advances : ℕ → Move
  times_out : Bool → ℕ → Move
  uses_cache : Move

unfoldable pub enter_new : ℕ → Task → Option Task → Cache → Cache
unfolding enter
enter_new i t none s = enter i t s
enter_new i t (some present) s = s

unfoldable pub advance : ℕ → Option Task → Cache → Cache
unfolding advance_from
advance i none s = s
advance i (some t) s = advance_from i t t.phase s

unfoldable pub time_out : Bool → ℕ → Option Task → Cache → Cache
unfolding time_out_from
time_out leaves i none s = s
time_out leaves i (some t) s = time_out_from leaves i t t.phase s

unfoldable pub step : Move → Cache → Cache
unfolding enter_new advance time_out use_cache
step (enters i t) s = enter_new i t (lookup i s.tasks) s
step (advances i) s = advance i (lookup i s.tasks) s
step (times_out leaves i) s = time_out leaves i (lookup i s.tasks) s
step uses_cache s = use_cache s

unfoldable pub run : List Move → Cache → Cache
unfolding step
run [] s = s
run (m ∷ ms) s = run ms (step m s)
