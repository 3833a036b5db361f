-- ===== src/PageSize.antt =====
-- lib/allocazam.cpp: the page size.
use allocazam.Prelude.{ℕ, ◌^◌, ◌&&◌, ltb, if◌then◌else◌}

-- `detect_page_size`, where the platform has `_SC_PAGESIZE`, from the `long` that `sysconf` returns, as
-- its two's complement word.
unfoldable pub detect_page_size : ℕ → ℕ
detect_page_size p = if ltb 0 p && ltb p (2 ^ 63) then p else 4096
