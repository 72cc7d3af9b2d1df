-- ===== src/MidiRing.antt =====
-- The class template `MidiRing<Size>` of
-- clap_wrapper_builder/clap-wrapper/src/detail/standalone/midi_ring.h. A method returns the new
-- ring. `Spec` is the bounded queue of messages that `Refine` proves it to be; `Copy` is about the
-- two copies round the end of the array.
pub mod Spec
pub mod Copy
pub mod Holds
pub mod Refine
mod Tests
use wrac_plugin_template.Prelude.{
  ℕ, ◌+◌, ◌-◌, ◌*◌, ◌/◌, ◌%◌, ◌^◌, min, bit_and, ◌==◌, ltb, ◌||◌, List, [], ◌∷◌, ◌++◌, Bool, true,
  false, Option, none, some, length, get_or, set, take, drop, replicate, u8, u32, if◌then◌else◌,
}
use wrac_plugin_template.MidiRing.Spec.{Op, put, get, wipe, peek, Reply, done, seen}

pub record MidiRing : Type 0 where
  pub bytes : List ℕ
  pub head : ℕ
  pub tail : ℕ

-- The bytes of a `uint32_t` as memcpy reads them on a little-endian machine.
abbrev pub size_bytes : ℕ → List ℕ
size_bytes n = n % 256 ∷ n / 256 % 256 ∷ n / 256 / 256 % 256 ∷ n / 256 / 256 / 256 % 256 ∷ []

abbrev pub size_of_bytes : List ℕ → ℕ
size_of_bytes b = get_or b 0 0 + 256 * (get_or b 1 0 + 256 * (get_or b 2 0 + 256 * get_or b 3 0))

-- memcpy(buf + i, xs, length xs)
unfoldable pub write : List ℕ → ℕ → List ℕ → List ℕ
write buf i [] = buf
write buf i (x ∷ xs) = write (set buf i x) (i + 1) xs

-- memcpy(to, buf + i, n), as what `to` then holds
abbrev pub read : List ℕ → ℕ → ℕ → List ℕ
read buf i n = take n (drop i buf)

module _ (Size : ℕ) where
  abbrev pub max_message : ℕ
  max_message = Size - 4

  pub copy_in : ℕ → List ℕ → List ℕ → List ℕ
  copy_in at xs buf =
      let offset = bit_and at (Size - 1) in
      let first = min (length xs) (Size - offset) in
      write (write buf offset (take first xs)) 0 (drop first xs)

  pub copy_out : List ℕ → ℕ → ℕ → List ℕ
  copy_out buf at size =
      let offset = bit_and at (Size - 1) in
      let first = min size (Size - offset) in read buf offset first ++ read buf 0 (size - first)

  pub fresh : MidiRing
  fresh = record { bytes = replicate Size 0; head = 0; tail = 0 }

  -- `none` is the null pointer. What is stored is the free-running difference of the counters.
  pub try_push : Option (List ℕ) → MidiRing → Bool × MidiRing
  try_push none r = (false, r)
  try_push (some message) r =
      let size = length message in
      let need = u32 (size + 4) in
      let stored = u32 (r.head + 2 ^ 32 - r.tail) in
      if size == 0 || ltb max_message size
      then (false, r)
      else if ltb (u32 (Size + 2 ^ 32 - stored)) need
      then (false, r)
      else (
        true,
        record r {
          bytes = copy_in (u32 (r.head + 4)) message (copy_in r.head (size_bytes size) r.bytes);
          head = u32 (r.head + need);
        },
      )

  pub next_size : MidiRing → ℕ
  next_size r = if r.head == r.tail then 0 else size_of_bytes (copy_out r.bytes r.tail 4)

  pub next_status : MidiRing → ℕ
  next_status r = if next_size r == 0 then 0 else get_or (copy_out r.bytes (u32 (r.tail + 4)) 1) 0 0

  -- The bytes that `out` receives; none for the return value 0.
  pub pop : MidiRing → Option (List ℕ) × MidiRing
  pop r =
      let size = next_size r in
      if size == 0 then (none, r) else (
        some (copy_out r.bytes (u32 (r.tail + 4)) size),
        record r { tail = u32 (u32 (r.tail + 4) + size) },
      )

  pub clear : MidiRing → MidiRing
  clear r = record r { tail = r.head }

  pub run : MidiRing → List Op → List Reply
  run r [] = []
  run r (put m ∷ ops) = let (b, r') = try_push m r in done b ∷ run r' ops
  run r (get ∷ ops) = let (out, r') = pop r in seen out ∷ run r' ops
  run r (wipe ∷ ops) = done true ∷ run (clear r) ops
  run r (peek ∷ ops) = seen (some (next_size r ∷ next_status r ∷ [])) ∷ run r ops
