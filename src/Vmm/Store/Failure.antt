-- ===== src/Vmm/Store/Failure.antt =====
-- backingstore.cpp: what the class reports when a system call fails.
use unix_sys_prog.Common.{ℕ, ◌≡◌, ◌≢◌, ◌↔◌, refl, Option, some, none, arith}
use unix_sys_prog.Vmm.Page.{Page}
use unix_sys_prog.Vmm.Store.{Device, get_page}

-- `getPage` reports a failure in no case but that of a seek that fails with a nonzero errno; the
-- page then is as it was.
pub get_page_status :
    (device : Device) (page : Page) (position size : ℕ)
    → ((get_page device page position size).1 ≢ 0) ↔ (
        (errno : ℕ) × (device.lseek position ≡ some errno)
        × (errno ≢ 0)
        × ((get_page device page position size).0 ≡ page))
unfolding get_page
get_page_status device page position size = (λ h. there (device.lseek position) refl h, λ h. back h)
  where
    there :
        (o : Option ℕ)
        → device.lseek position ≡ o
        → (get_page device page position size).1 ≢ 0
        → (errno : ℕ) × (device.lseek position ≡ some errno)
          × (errno ≢ 0)
          × ((get_page device page position size).0 ≡ page)
    there none e h = absurd (h (ground arith))
    there (some errno) e h = (errno, e, λ z. h (ground arith), ground arith)

    back :
        (errno : ℕ) × (device.lseek position ≡ some errno)
          × (errno ≢ 0)
          × ((get_page device page position size).0 ≡ page)
        → (get_page device page position size).1 ≢ 0
    back (errno, e, ne, _) = λ z. ne (ground arith)
