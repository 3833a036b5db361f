-- ===== src/Suballocated/Cache/Sizes.antt =====
-- The classes of cached runs by size.
use allocazam.Prelude.{ℕ, ◌+◌, ◌*◌, ◌/◌, ◌%◌, ◌≤◌, ◌<◌, ◌≡◌, ◌^◌, ◌-◌, some, inl, inr, arith}
use allocazam.Word.Pow2.{and_not-pow2}
use allocazam.Runner.Sizes.{normalized_run_bytes_for_payload, run_header_size}
use allocazam.Runner.Sizes.Payload.{normalized-least}
use allocazam.Suballocated.Cache.{
  tls_align_up, tls_class_index_for, tls_class_bytes, tls_run_cutoff, tls_run_class_count,
}

tls_align_up-eq : (bytes : ℕ) → bytes ≤ tls_run_cutoff → tls_align_up bytes ≡ (bytes + 15) / 16 * 16
unfolding tls_align_up
tls_align_up-eq bytes small =
    let whole : (bytes + 15) % 2 ^ 64 ≡ bytes + 15 = omega arith in
    rw whole (and_not-pow2 4 (bytes + 15) (omega arith) (omega arith))

tls_class_index_for-eq :
    (bytes : ℕ)
    → 0 < bytes
    → bytes ≤ tls_run_cutoff
    → tls_class_index_for bytes ≡ (bytes + 15) / 16 - 1
unfolding tls_class_index_for
tls_class_index_for-eq bytes pos small = rw (tls_align_up-eq bytes small) (omega arith)

tls_class_bytes-eq : (idx : ℕ) → idx < tls_run_class_count → tls_class_bytes idx ≡ (idx + 1) * 16
unfolding tls_class_bytes
tls_class_bytes-eq idx lt = omega arith

-- A nonzero size that may be cached has a class, whose runs hold it with less than a quantum to
-- spare, and which is the class of its own runs' size.
pub class-fits :
    (bytes : ℕ)
    → 0 < bytes
    → bytes ≤ tls_run_cutoff
    → let idx = tls_class_index_for bytes in
      (idx < tls_run_class_count)
      × (bytes ≤ tls_class_bytes idx)
      × (tls_class_bytes idx < bytes + 16)
      × (tls_class_index_for (tls_class_bytes idx) ≡ idx)
class-fits bytes pos small =
    let idx = (bytes + 15) / 16 - 1 in
    let inside : idx < 256 = omega arith in
    rw
      (
        tls_class_index_for-eq bytes pos small,
        tls_class_bytes-eq idx inside,
        tls_class_index_for-eq ((idx + 1) * 16) (omega arith) (omega arith),
      )
      (omega arith, omega arith, omega arith, omega arith)

-- Of two sizes in the same class, the run that the runner makes for either holds the other, and also
-- the size of the class, so a cached run may be handed out again unseen.
pub same_class-fits :
    (bytes bytes' r : ℕ)
    → 0 < bytes
    → bytes ≤ tls_run_cutoff
    → 0 < bytes'
    → bytes' ≤ tls_run_cutoff
    → tls_class_index_for bytes ≡ tls_class_index_for bytes'
    → normalized_run_bytes_for_payload bytes ≡ some r
    → (bytes' + run_header_size ≤ r)
      × (tls_class_bytes (tls_class_index_for bytes) + run_header_size ≤ r)
same_class-fits bytes bytes' r pos small pos' small' same made =
    let idx = (bytes + 15) / 16 - 1 in
    let first = tls_class_index_for-eq bytes pos small in
    let second = tls_class_index_for-eq bytes' pos' small' in
    let equal : (bytes + 15) / 16 - 1 ≡ (bytes' + 15) / 16 - 1 = cc in
    elim (normalized-least bytes (omega arith)) [
      | inl (fails, big) ↦ absurd (omega arith)
      | inr (r', e, whole, fits, least, most, top) ↦
          let it : r' ≡ r = cc in
          rw (first, tls_class_bytes-eq idx (omega arith)) (omega arith, omega arith)
    ]
