-- ===== src/Vmm/Page/Copy.antt =====
-- pageblock.cpp: the copy loop of `operator=` copies the whole page.
use unix_sys_prog.Common.{
  ℕ, zero, suc, ◌+◌, ◌<◌, ◌≤◌, ◌≡◌, refl, ap, ◌∙◌, List, [], ◌∷◌, arith, length, get_or, set,
  length-set, get_or-set_self, get_or-set_ne, dec_lt,
}
use unix_sys_prog.Paging.Count.{ℕ-split as dec_eq}
use unix_sys_prog.Vmm.Page.{Page, copy_from, assign}

-- Two arrays of one length with the same entries are the same.
ext :
    (xs ys : List ℕ)
    → length xs ≡ length ys
    → ((i : ℕ) → i < length xs → get_or xs i 0 ≡ get_or ys i 0)
    → xs ≡ ys
ext [] [] e h = refl
ext [] (y ∷ ys) e h = absurd (omega arith)
ext (x ∷ xs) [] e h = absurd (omega arith)
ext (x ∷ xs) (y ∷ ys) e h =
    cc (h 0 (omega arith), ext xs ys (omega arith) (λ i lt. h (suc i) (omega arith)))

length-copy_from :
    (n i : ℕ) (page buffer : List ℕ) → length (copy_from n i page buffer) ≡ length page
unfolding copy_from
length-copy_from zero i page buffer = refl
length-copy_from (suc n) i page buffer =
    length-copy_from n (i + 1) (set page i (get_or buffer i 0)) buffer
    ∙ length-set page i (get_or buffer i 0)

-- Indices below the loop's start keep their bytes.
copy_from-below :
    (n i j : ℕ) (page buffer : List ℕ)
    → j < i
    → get_or (copy_from n i page buffer) j 0 ≡ get_or page j 0
unfolding copy_from
copy_from-below zero i j page buffer h = refl
copy_from-below (suc n) i j page buffer h =
    copy_from-below n (i + 1) j (set page i (get_or buffer i 0)) buffer (omega arith)
    ∙ get_or-set_ne page i j (get_or buffer i 0) 0 (λ e. absurd (omega arith))

copy_from-within :
    (n i j : ℕ) (page buffer : List ℕ)
    → i ≤ j
    → j < i + n
    → j < length page
    → get_or (copy_from n i page buffer) j 0 ≡ get_or buffer j 0
unfolding copy_from
copy_from-within zero i j page buffer lo hi lt = absurd (omega arith)
copy_from-within (suc n) i j page buffer lo hi lt = elim (dec_lt i j) [
  | yes later ↦
      copy_from-within n (i + 1) j (set page i (get_or buffer i 0)) buffer (omega arith)
        (omega arith) (omega (arith, length-set page i (get_or buffer i 0)))
  | no now ↦
      let here : i ≡ j = omega arith in
      copy_from-below n (i + 1) j (set page i (get_or buffer i 0)) buffer (omega arith)
      ∙ ap (λ (k : ℕ). get_or (set page k (get_or buffer k 0)) j 0) here
      ∙ get_or-set_self page j (get_or buffer j 0) 0 lt
]

-- After `page = buffer` a page of 256 bytes holds exactly the 256 bytes of the buffer, whatever it
-- held before.
pub assign-eq :
    (page buffer : List ℕ) → length page ≡ 256 → length buffer ≡ 256 → assign page buffer ≡ buffer
unfolding assign
assign-eq page buffer p b =
    ext (copy_from 256 0 page buffer) buffer (length-copy_from 256 0 page buffer ∙ omega arith)
      (λ i lt.
        let small : i < 256 = omega (arith, length-copy_from 256 0 page buffer) in
        copy_from-within 256 0 i page buffer (omega arith) (omega arith) (omega arith))
