-- ===== src/Memory.antt =====
-- Memory as eight-byte words, by the address of their first byte. All words that the library
-- reads or writes are aligned, so two different ones do not overlap.
use allocazam.Prelude.{ℕ, ◌==◌, if◌then◌else◌}

abbrev pub Memory : Type 0
Memory = ℕ → ℕ

abbrev pub write : Memory → ℕ → ℕ → Memory
write mem a value b = if a == b then value else mem b
