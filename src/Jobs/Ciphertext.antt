-- ===== src/Jobs/Ciphertext.antt =====
-- src/taskDispatch/worker-ciphertext.js: a job's ciphertext in chunks, for the jobs of one room. A
-- stored row has the metadata of its job, without the box, which stands in `box` before it is written.
-- The chunks are a map from a job's id and a chunk's index; the digest is a parameter.
pub mod Roundtrip
use granttap_relay.Prelude.{
  ℕ, zero, suc, ◌+◌, ◌*◌, ◌/◌, Bool, true, false, not, ◌&&◌, ◌||◌, List, [], ◌∷◌, ◌++◌, Option,
  none, some, ltb, leb, ◌==◌, if◌then◌else◌, length, take, drop, Text, text_eq,
}
use granttap_relay.Jobs.Policy.{Job, retains_task_payload}

abbrev pub chunk_bytes : ℕ
chunk_bytes = 64_000

pub record Cipher : Type 0 where
  pub count : ℕ
  pub digest : Text
  pub bytes : ℕ

pub record StoredRow : Type 0 where
  pub job : Job
  pub box : Option Text
  pub cipher : Option Cipher

-- `storage.get(boxKey(row, index))`
abbrev pub Boxes : Type 0
Boxes = Text → ℕ → Option Text

unfoldable pub put_box : Text → ℕ → Option Text → Boxes → Boxes
unfolding text_eq
put_box id index value boxes other i =
    if text_eq id other && i == index then value else boxes other i

abbrev pub slice : ℕ → Text → ℕ → Text
slice size box index = take size (drop (index * size) box)

-- The loop that writes `count` chunks from `index` on.
unfoldable pub write_chunks : ℕ → Text → Text → ℕ → ℕ → Boxes → Boxes
unfolding put_box
write_chunks size id box zero index boxes = boxes
write_chunks size id box (suc count) index boxes =
    write_chunks size id box count (suc index)
      (put_box id index (some (slice size box index)) boxes)

unfoldable pub delete_chunks : Text → ℕ → ℕ → Boxes → Boxes
unfolding put_box
delete_chunks id zero index boxes = boxes
delete_chunks id (suc count) index boxes =
    delete_chunks id count (suc index) (put_box id index none boxes)

unfoldable pub delete_ciphertext : StoredRow → Boxes → Boxes
unfolding delete_chunks
delete_ciphertext row boxes = elim row.cipher [
  | none ↦ boxes
  | some cipher ↦ delete_chunks row.job.id cipher.count 0 boxes
]

abbrev pub is_chunk : ℕ → Text → Bool
is_chunk size value = leb (length value) size

-- The loop that reads `count` chunks: `none` is an error.
unfoldable pub read_chunks : ℕ → Text → ℕ → ℕ → Boxes → Option Text
read_chunks size id zero index boxes = some []
read_chunks size id (suc count) index boxes = elim (boxes id index) [
  | none ↦ none
  | some value ↦ elim (is_chunk size value) [
    | false ↦ none
    | true ↦ elim (read_chunks size id count (suc index) boxes) [
      | none ↦ none
      | some rest ↦ some (value ++ rest)
    ]
  ]
]

-- `Math.ceil(length / size)`
abbrev pub chunk_count : ℕ → ℕ
chunk_count bytes = (bytes + 63_999) / 64_000

abbrev pub is_plausible : Cipher → Bool
is_plausible c = leb 1 c.count && leb c.count 350 && leb 24 c.bytes && leb c.bytes 22_000_000

module _ (sha256 : Text → Text) where
  abbrev pub cipher_of : Text → Cipher
  cipher_of box = record {
    count = chunk_count (length box);
    digest = sha256 box;
    bytes = length box;
  }

  abbrev seal : Text → Boxes → Option Text → Option Cipher → Option Cipher × Boxes
  seal id boxes box (some cipher) = (some cipher, boxes)
  seal id boxes (some box) none =
      (some (cipher_of box), write_chunks chunk_bytes id box (chunk_count (length box)) 0 boxes)
  seal id boxes none none = (none, boxes)

  -- The row as it is put under its key, and the chunks.
  unfoldable pub write_task_job : StoredRow → Boxes → StoredRow × Boxes
  unfolding delete_ciphertext write_chunks retains_task_payload
  write_task_job row boxes =
      if not (retains_task_payload row.job.state)
      then (record { job = row.job; box = none; cipher = none }, delete_ciphertext row boxes)
      else (let sealed = seal row.job.id boxes row.box row.cipher in
          (record { job = row.job; box = none; cipher = sealed.0 }, sealed.1))

  abbrev check_box : Cipher → StoredRow → Option Text → Option StoredRow
  check_box cipher row none = none
  check_box cipher row (some box) =
      if length box == cipher.bytes && text_eq (sha256 box) cipher.digest
      then some (record row { box = some box })
      else none

  -- `none` is an error.
  unfoldable pub hydrate_task_job : StoredRow → Boxes → Option StoredRow
  unfolding read_chunks text_eq
  hydrate_task_job row boxes = elim row.cipher [
    | none ↦ some row
    | some cipher ↦
        if is_plausible cipher
        then check_box cipher row (read_chunks chunk_bytes row.job.id cipher.count 0 boxes)
        else none
  ]
