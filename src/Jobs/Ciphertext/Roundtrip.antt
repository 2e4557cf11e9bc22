-- ===== src/Jobs/Ciphertext/Roundtrip.antt =====
-- src/taskDispatch/worker-ciphertext.js: a ciphertext that was written is read back as it was.
use granttap_relay.Prelude.{
  ℕ, zero, suc, ◌+◌, ◌*◌, ◌≤◌, ◌<◌, ◌≡◌, refl, ◌∙◌, ap, true, ◌&&◌, [], ◌∷◌, ◌++◌, Option, none,
  some, arith, leb, ==_iff, length, take, drop, Text, text_eq_refl,
}
use granttap_relay.Jobs.Policy.{Job, retains_task_payload}
use granttap_relay.Jobs.Ciphertext.{
  StoredRow, Boxes, put_box, slice, write_chunks, read_chunks, chunk_bytes, chunk_count, cipher_of,
  write_task_job, hydrate_task_job,
}

take_nil : (n : ℕ) → take {A = ℕ} n [] ≡ []
take_nil zero = refl
take_nil (suc n) = refl

drop_nil : (n : ℕ) → drop {A = ℕ} n [] ≡ []
drop_nil zero = refl
drop_nil (suc n) = refl

take-append-drop : (n m : ℕ) (xs : Text) → take n xs ++ take m (drop n xs) ≡ take (n + m) xs
take-append-drop zero m xs = let e : 0 + m ≡ m = omega arith in rw e refl
take-append-drop (suc n) m [] = rw (take_nil m, take_nil (suc n + m)) refl
take-append-drop (suc n) m (x ∷ xs) =
    let e : suc n + m ≡ suc (n + m) = omega arith in
    rw e (ap (λ ys. x ∷ ys) (take-append-drop n m xs))

take-length-le : (n : ℕ) (xs : Text) → length xs ≤ n → take n xs ≡ xs
take-length-le zero [] h = refl
take-length-le zero (x ∷ xs) h = absurd (omega arith)
take-length-le (suc n) [] h = refl
take-length-le (suc n) (x ∷ xs) h = ap (λ ys. x ∷ ys) (take-length-le n xs (omega arith))

length-take-le : (n : ℕ) (xs : Text) → length (take n xs) ≤ n
length-take-le zero xs = omega arith
length-take-le (suc n) [] = omega arith
length-take-le (suc n) (x ∷ xs) = omega (arith, length-take-le n xs)

drop-drop : (m n : ℕ) (xs : Text) → drop n (drop m xs) ≡ drop (m + n) xs
drop-drop zero n xs = let e : 0 + n ≡ n = omega arith in rw e refl
drop-drop (suc m) n [] = rw (drop_nil n, drop_nil (suc m + n)) refl
drop-drop (suc m) n (x ∷ xs) =
    let e : suc m + n ≡ suc (m + n) = omega arith in rw e (drop-drop m n xs)

put_box_same :
    (id : Text) (i : ℕ) (value : Option Text) (boxes : Boxes)
    → put_box id i value boxes id i ≡ value
unfolding put_box
put_box_same id i value boxes = simp (text_eq_refl id, (==_iff i i).1 refl)

put_box_other :
    (id : Text) (i j : ℕ) (value : Option Text) (boxes : Boxes)
    → j < i
    → put_box id i value boxes id j ≡ boxes id j
unfolding put_box
put_box_other id i j value boxes low = ground arith

module _ (size : ℕ) (id box : Text) where
  -- Later chunks leave the earlier ones.
  write_chunks_before :
      (count index j : ℕ) (boxes : Boxes)
      → j < index
      → write_chunks size id box count index boxes id j ≡ boxes id j
  unfolding write_chunks
  write_chunks_before zero index j boxes low = refl
  write_chunks_before (suc count) index j boxes low =
      write_chunks_before count (suc index) j _ (omega arith) ∙ put_box_other id index j _ boxes low

  read-write :
      (count index : ℕ) (boxes after : Boxes)
      → ((j : ℕ) → after id j ≡ write_chunks size id box count index boxes id j)
      → read_chunks size id count index after ≡ some (take (count * size) (drop (index * size) box))
  unfolding read_chunks write_chunks
  read-write zero index boxes after same =
      ap some (ap (λ k. take k (drop (index * size) box)) {x = zero} (omega arith))
  read-write (suc count) index boxes after same =
      let this : after id index ≡ some (slice size box index) =
        same index
        ∙ (write_chunks_before count (suc index) index _ (omega arith)
            ∙ put_box_same id index (some (slice size box index)) boxes) in
      let fits : leb (length (slice size box index)) size ≡ true =
        ground (arith, length-take-le size (drop (index * size) box)) in
      let rest =
        read-write count (suc index) (put_box id index (some (slice size box index)) boxes) after
          same in
      rw (this, fits, rest, read_chunks) (ap some joined)
    where
      joined :
          take size (drop (index * size) box) ++ take (count * size) (drop (suc index * size) box)
          ≡ take (suc count * size) (drop (index * size) box)
      joined =
          let next : suc index * size ≡ index * size + size = grind arith in
          let all : suc count * size ≡ size + count * size = grind arith in
          rw (next, all, ← drop-drop (index * size) size box)
            (take-append-drop size (count * size) (drop (index * size) box))

plausible :
    (bytes : ℕ)
    → 24 ≤ bytes
    → bytes ≤ 22_000_000
    → (leb 1 (chunk_count bytes)
        && leb (chunk_count bytes) 350
        && leb 24 bytes
        && leb bytes 22_000_000)
      ≡ true
plausible bytes long short = ground arith

covers : (bytes : ℕ) → bytes ≤ chunk_count bytes * chunk_bytes
covers bytes = omega arith

module _ (sha256 : Text → Text) where
  abbrev unwritten : Job → Text → StoredRow
  unwritten job box = record { job = job; box = some box; cipher = none }

  -- A job that counts against the room's capacity and is written with its ciphertext is read back
  -- with the same ciphertext, if that has 24 to 22,000,000 characters.
  pub hydrate_task_job-write_task_job :
      (job : Job) (box : Text) (boxes : Boxes)
      → retains_task_payload job.state ≡ true
      → 24 ≤ length box
      → length box ≤ 22_000_000
      → hydrate_task_job sha256
          (write_task_job sha256 (unwritten job box) boxes).0
          (write_task_job sha256 (unwritten job box) boxes).1
        ≡ some (record { job = job; box = some box; cipher = some (cipher_of sha256 box) })
  unfolding hydrate_task_job write_task_job
  hydrate_task_job-write_task_job job box boxes keeps long short =
      let back : read_chunks chunk_bytes job.id (chunk_count (length box)) 0
            (write_chunks chunk_bytes job.id box (chunk_count (length box)) 0 boxes)
          ≡ some box =
        read-write chunk_bytes job.id box (chunk_count (length box)) 0 boxes
          (write_chunks chunk_bytes job.id box (chunk_count (length box)) 0 boxes) (λ j. refl)
        ∙ ap some
            (take-length-le (chunk_count (length box) * chunk_bytes) box (covers (length box))) in
      simp (
        keeps,
        plausible (length box) long short,
        back,
        (==_iff (length box) (length box)).1 refl,
        text_eq_refl (sha256 box),
      )
