-- ===== src/Elf/Image.antt =====
-- The memory image of a program: all of its segments.
use hvos.Common.{
  ℕ, zero, suc, ◌+◌, ◌*◌, ◌/◌, ◌^◌, ◌≤◌, ◌<◌, ◌≡◌, refl, sym, subst, ◌∙◌, ◌⊎◌, inl, inr, Option,
  List, arith, ◌==◌, Bool-cases, ==→eq,
}
use hvos.Mem.Paging.Walk.{translate, IsTree}
use hvos.Elf.{
  page_size, pt_load, Machine, Pheader, pheader_at, page_offset, vaddr_page, total_size, going,
  load_pages, load_segment, load_segments, e_phnum,
}
use hvos.Elf.Page.{IsOpenHalf, IsKernel, Shows, Filled}
use hvos.Elf.Segment.{
  >>=-going, load_pages-Filled, segment_end, total_size_lem, image_byte, segment_byte-image,
}

abbrev pub IsLoad : Pheader → Type 0
IsLoad ph = ph.p_type ≡ pt_load

-- An address in no page of the segment.
abbrev pub Clear : Pheader → ℕ → Type 0
Clear ph w = (w < vaddr_page ph) ⊎ (segment_end ph ≤ w)

-- Each segment to load lies in the lower half, and no two of them have a page in common.
pub record IsLaidOut (elf : ℕ → ℕ) : Type 0 where
  pub fits :
      (i : ℕ)
      → i < e_phnum elf
      → IsLoad (pheader_at elf i)
      → (pheader_at elf i).p_vaddr + (pheader_at elf i).p_memsz ≤ 2 ^ 47
  pub apart :
      (i j : ℕ)
      → i < j
      → j < e_phnum elf
      → IsLoad (pheader_at elf i)
      → IsLoad (pheader_at elf j)
      → (segment_end (pheader_at elf i) ≤ vaddr_page (pheader_at elf j))
        ⊎ (segment_end (pheader_at elf j) ≤ vaddr_page (pheader_at elf i))

-- The segments from the `i`-th to the one before `last` are in memory.
pub record Image (elf : ℕ → ℕ) (m t : Machine) (root i last : ℕ) : Type 0 where
  pub place' : ℕ → Option (List ℕ)
  pub tree : IsTree t.tables root place'
  pub opens : IsOpenHalf t.tables root
  pub shows :
      (j k : ℕ)
      → i ≤ j
      → j < last
      → IsLoad (pheader_at elf j)
      → k < (pheader_at elf j).p_memsz
      → Shows t root ((pheader_at elf j).p_vaddr + k) (image_byte elf (pheader_at elf j) k)
  pub kernel_half : (w : ℕ) → IsKernel w → translate t.tables root w ≡ translate m.tables root w
  pub keeps :
      (w b : ℕ)
      → w < 2 ^ 48
      → ((j : ℕ) → i ≤ j → j < last → IsLoad (pheader_at elf j) → Clear (pheader_at elf j) w)
      → Shows m root w b
      → Shows t root w b

module _ {elf : ℕ → ℕ} {root : ℕ} where
  -- A segment that is loaded, by its offsets.
  segment-Shows :
      (ph : Pheader) {m t : Machine} (k : ℕ)
      → ph.p_vaddr + ph.p_memsz ≤ 2 ^ 47
      → Filled elf ph m t root 0 (total_size ph)
      → k < ph.p_memsz
      → Shows t root (ph.p_vaddr + k) (image_byte elf ph k)
  segment-Shows ph {m} {t} k fits filled lt =
      subst (λ a. Shows t root a (image_byte elf ph k)) {x = vaddr_page ph + (page_offset ph + k)}
        {y = ph.p_vaddr + k} (omega arith)
        (subst (Shows t root (vaddr_page ph + (page_offset ph + k))) (segment_byte-image elf ph k) (
          filled.shows (page_offset ph + k) (omega arith) (omega (arith, total_size_lem ph fits))
            (omega arith)))

  segment-Filled :
      (ph : Pheader) {m t : Machine} {place : ℕ → Option (List ℕ)}
      → ph.p_vaddr + ph.p_memsz ≤ 2 ^ 47
      → IsTree m.tables root place
      → IsOpenHalf m.tables root
      → load_pages elf ph root (total_size ph / page_size) 0 m ≡ going t
      → Filled elf ph m t root 0 (total_size ph)
  segment-Filled ph {m} {t} fits tree open_half h =
      let (whole, covers, room) = total_size_lem ph fits in
      subst (Filled elf ph m t root 0) {x = 0 + total_size ph / page_size * page_size}
        {y = total_size ph} (omega arith)
        (load_pages-Filled (total_size ph / page_size) 0 tree open_half refl (omega arith) h)

module _ {elf : ℕ → ℕ} (laid : IsLaidOut elf) where
  -- Where the `i`-th segment lies, no later segment does.
  image-Clear :
      (i j k : ℕ)
      → i < j
      → j < e_phnum elf
      → IsLoad (pheader_at elf i)
      → IsLoad (pheader_at elf j)
      → k < (pheader_at elf i).p_memsz
      → Clear (pheader_at elf j) ((pheader_at elf i).p_vaddr + k)
  image-Clear i j k lt inside li lj small =
      let size = total_size_lem (pheader_at elf i) (laid.fits i (omega arith) li) in
      elim (laid.apart i j lt inside li lj) [
        | inl before ↦ inl (omega (arith, size))
        | inr behind ↦ inr (omega (arith, size))
      ]

-- A segment is loaded, or it is none to load and nothing happens.
load_segment-cases :
    (elf : ℕ → ℕ) (root : ℕ) (ph : Pheader) (m u : Machine)
    → load_segment elf root ph m ≡ going u
    → (IsLoad ph × (load_pages elf ph root (total_size ph / page_size) 0 m ≡ going u))
      ⊎ ((¬ IsLoad ph) × (m ≡ u))
unfolding load_segment
load_segment-cases elf root ph m u h = elim (Bool-cases (ph.p_type == pt_load)) [
  | inl load ↦ inl (==→eq ph.p_type pt_load load, rw load at h)
  | inr other ↦ inr ((λ e. absurd (ground arith)), ground arith)
]

module _ {elf : ℕ → ℕ} {root : ℕ} (laid : IsLaidOut elf) where
  Image-cons :
      {m u t : Machine} {i : ℕ}
      → i < e_phnum elf
      → IsLoad (pheader_at elf i)
      → Filled elf (pheader_at elf i) m u root 0 (total_size (pheader_at elf i))
      → Image elf u t root (suc i) (e_phnum elf)
      → Image elf m t root i (e_phnum elf)
  Image-cons {m} {u} {t} {i} inside load filled more = record {
    place' = more.place';
    tree = more.tree;
    opens = more.opens;
    kernel_half = λ w is. more.kernel_half w is ∙ filled.kernel_half w is;
    shows = shows;
    keeps = λ w b lt clear s.
        more.keeps w b lt (λ j le. clear j (omega arith))
          (filled.keeps w b lt (first w (clear i (omega arith) inside load)) s);
  }
    where
      first :
          (w : ℕ)
          → Clear (pheader_at elf i) w
          → (w < vaddr_page (pheader_at elf i) + 0) ⊎ (segment_end (pheader_at elf i) ≤ w)
      first w (inl l) = inl (omega arith)
      first w (inr r) = inr r

      here :
          (k : ℕ)
          → k < (pheader_at elf i).p_memsz
          → Shows t root ((pheader_at elf i).p_vaddr + k) (image_byte elf (pheader_at elf i) k)
      here k lt =
          more.keeps ((pheader_at elf i).p_vaddr + k) (image_byte elf (pheader_at elf i) k)
            (omega (arith, laid.fits i inside load))
            (λ j le inj lj. image-Clear laid i j k le inj load lj lt)
            (segment-Shows (pheader_at elf i) k (laid.fits i inside load) filled lt)

      shows :
          (j k : ℕ)
          → i ≤ j
          → j < e_phnum elf
          → IsLoad (pheader_at elf j)
          → k < (pheader_at elf j).p_memsz
          → Shows t root ((pheader_at elf j).p_vaddr + k) (image_byte elf (pheader_at elf j) k)
      shows j k le inj lj lt = elim (Bool-cases (i == j)) [
        | inl same ↦
            subst
              (λ (n : ℕ).
                n < e_phnum elf
                → k < (pheader_at elf n).p_memsz
                → Shows t root ((pheader_at elf n).p_vaddr + k)
                    (image_byte elf (pheader_at elf n) k))
              (==→eq i j same) (λ inn. here k) inj lt
        | inr other ↦ more.shows j k (ground arith) inj lj lt
      ]

  Image-skip :
      {m t : Machine} {i : ℕ}
      → ¬ IsLoad (pheader_at elf i)
      → Image elf m t root (suc i) (e_phnum elf)
      → Image elf m t root i (e_phnum elf)
  Image-skip {m} {t} {i} other more = record {
    place' = more.place';
    tree = more.tree;
    opens = more.opens;
    kernel_half = more.kernel_half;
    shows = λ j k le inj lj lt. elim (Bool-cases (i == j)) [
      | inl same ↦
          absurd (other (subst (λ (n : ℕ). IsLoad (pheader_at elf n)) (sym (==→eq i j same)) lj))
      | inr later ↦ more.shows j k (ground arith) inj lj lt
    ];
    keeps = λ w b lt clear s. more.keeps w b lt (λ j le. clear j (omega arith)) s;
  }

  pub load_segments-Image :
      (n i : ℕ) {m t : Machine} {place : ℕ → Option (List ℕ)}
      → i + n ≡ e_phnum elf
      → IsTree m.tables root place
      → IsOpenHalf m.tables root
      → load_segments elf root n i m ≡ going t
      → Image elf m t root i (e_phnum elf)
  unfolding load_segments
  load_segments-Image zero i {m} {t} {place} last tree open_half h =
      let same : m ≡ t = ground arith in
      subst (λ (u : Machine). Image elf m u root i (e_phnum elf)) same
        (record {
          place' = place;
          tree = tree;
          opens = open_half;
          kernel_half = λ w is. refl;
          shows = λ j k le lt load small. absurd (omega arith);
          keeps = λ w b lt clear s. s;
        })
  load_segments-Image (suc n) i {m} {t} last tree open_half h =
      let (u, e, rest) = >>=-going (load_segment elf root (pheader_at elf i) m) _ t h in
      elim (load_segment-cases elf root (pheader_at elf i) m u e) [
        | inl (load, pages) ↦
            let filled =
              segment-Filled (pheader_at elf i) (laid.fits i (omega arith) load) tree open_half
                pages in
            Image-cons (omega arith) load filled
              (load_segments-Image n (suc i) (omega arith) filled.tree filled.opens rest)
        | inr (other, same) ↦
            let more : load_segments elf root n (suc i) m ≡ going t =
              subst (λ (s : Machine). load_segments elf root n (suc i) s ≡ going t) (sym same)
                rest in
            Image-skip other (load_segments-Image n (suc i) (omega arith) tree open_half more)
      ]
