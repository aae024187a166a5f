-- ===== src/Elf/Page.antt =====
-- One page of a segment: its frame and its bytes.
use hvos.Common.{
  ℕ, ◌+◌, ◌-◌, ◌*◌, ◌/◌, ◌%◌, ◌^◌, ◌≤◌, ◌<◌, ◌≡◌, refl, sym, ap, subst, ◌∙◌, ◌≢◌, ◌⊎◌, inl, inr,
  true, Option, some, List, [], ◌∷◌, arith, ltb, ◌==◌, if◌then◌else◌, Bool-cases, Option-cases,
  ltb→lt, ==→eq, u64, ◌>>>◌,
}
use hvos.Mem.Pmm.{pmm_alloc}
use hvos.Mem.Pmm.Alloc.{used}
use hvos.Mem.Paging.{Tables, map_page, indices}
use hvos.Mem.Paging.Walk.{walk, translate, allows, both, IsTree}
use hvos.Mem.Paging.Map.{IsMapped}
use hvos.Mem.Pages.{map_fresh, map_frame}
use hvos.Mem.Pages.Grant.{indices_page}
use hvos.Mem.Pages.Frames.{Mapped, map_fresh_lem}
use hvos.Elf.{
  page_size, user_flags, Machine, Pheader, page_offset, vaddr_page, fill_page, going, place_page,
  load_page,
}

-- What the memory of a segment holds at an offset from its first page: the file's bytes, then zeros.
abbrev pub segment_byte : (ℕ → ℕ) → Pheader → ℕ → ℕ
segment_byte elf ph x =
    let k = x - page_offset ph in if ltb k ph.p_filesz then elf (ph.p_offset + k) else 0

-- An address of the kernel's half.
abbrev pub IsKernel : ℕ → Type 0
IsKernel w = 256 ≤ w >>> 39 % 512

-- User code finds byte `b` at `va`, in a frame that is in use.
pub record Shows (m : Machine) (root va b : ℕ) : Type 0 where
  pub frame : ℕ
  pub in_range : frame < m.tables.pmm.total_pages
  pub held : used m.tables.pmm frame ≡ true
  pub maps : IsMapped (frame * page_size) user_flags (translate m.tables root va)
  pub byte : m.bytes (frame * page_size + va % page_size) ≡ b

module _ (elf : ℕ → ℕ) (ph : Pheader) (off phys : ℕ) (bytes : ℕ → ℕ) where
  -- A page of a segment is filled: its own bytes inside, and nothing outside.
  fill_page-outside :
      (a : ℕ) → (a < phys) ⊎ (phys + page_size ≤ a) → fill_page elf ph off phys bytes a ≡ bytes a
  unfolding fill_page
  fill_page-outside a h = ground arith

  fill_page-inside :
      (x : ℕ)
      → off % page_size ≡ 0
      → x < page_size
      → page_offset ph ≤ off + x
      → fill_page elf ph off phys bytes (phys + x) ≡ segment_byte elf ph (off + x)
  unfolding fill_page
  fill_page-inside x h lt le = elim (Bool-cases (off == 0)) [
    | inl first ↦
        let zero_ : off ≡ 0 = ==→eq off 0 first in
        let at : elf (ph.p_offset + 0 + (phys + x - (phys + page_offset ph)))
            ≡ elf (ph.p_offset + (off + x - page_offset ph)) =
          ap elf (omega arith) in
        rw (first, zero_) (ground (arith, at))
    | inr later ↦
        let page : page_size ≤ off = ground arith in
        let at : elf (ph.p_offset + (off - page_offset ph) + (phys + x - (phys + 0)))
            ≡ elf (ph.p_offset + (off + x - page_offset ph)) =
          ap elf (omega arith) in
        rw later (ground (arith, at))
  ]

-- Below 2 ^ 47, the tables that are there can be written and serve user code.
abbrev pub IsOpenHalf : Tables → ℕ → Type 0
IsOpenHalf s root = (w : ℕ) → w < 2 ^ 47 → allows both s root (indices w) ≡ true

-- The offsets from `from` to `to` of a segment are loaded: user code finds its bytes there, and what it
-- finds elsewhere is as before.
pub record Filled (elf : ℕ → ℕ) (ph : Pheader) (m t : Machine) (root from to : ℕ) : Type 0 where
  pub place' : ℕ → Option (List ℕ)
  pub tree : IsTree t.tables root place'
  pub opens : IsOpenHalf t.tables root
  pub kernel_half : (w : ℕ) → IsKernel w → translate t.tables root w ≡ translate m.tables root w
  pub shows :
      (x : ℕ)
      → from ≤ x
      → x < to
      → page_offset ph ≤ x
      → Shows t root (vaddr_page ph + x) (segment_byte elf ph x)
  pub keeps :
      (w b : ℕ)
      → w < 2 ^ 48
      → (w < vaddr_page ph + from) ⊎ (vaddr_page ph + to ≤ w)
      → Shows m root w b
      → Shows t root w b

abbrev top_index : List ℕ → ℕ
top_index [] = 0
top_index (i ∷ is) = i

-- The addresses of one page have the same indices.
indices_within : (va x : ℕ) → va % page_size ≡ 0 → x < page_size → indices (va + x) ≡ indices va
indices_within va x h lt =
    let e1 : (va + x) >>> 39 % 512 ≡ va >>> 39 % 512 = omega arith in
    let e2 : (va + x) >>> 30 % 512 ≡ va >>> 30 % 512 = omega arith in
    let e3 : (va + x) >>> 21 % 512 ≡ va >>> 21 % 512 = omega arith in
    let e4 : (va + x) >>> 12 % 512 ≡ va >>> 12 % 512 = omega arith in rw (e1, e2, e3, e4) refl

module _ (elf : ℕ → ℕ) (ph : Pheader) (root off : ℕ) (m t : Machine) where
  -- `load_page` maps as `map_fresh` does, and writes the page.
  load_page-going :
      load_page elf ph root off m ≡ going t
      → (map_fresh m.tables root (u64 (vaddr_page ph + off)) ≡ some (true, t.tables))
        × (t.bytes ≡ fill_page elf ph off (pmm_alloc m.tables.pmm).0 m.bytes)
  unfolding load_page place_page map_fresh map_frame
  load_page-going h =
      let phys = (pmm_alloc m.tables.pmm).0 in
      let s : Tables = record m.tables { pmm = (pmm_alloc m.tables.pmm).1 } in
      elim (Bool-cases (phys == 0)) [
        | inl null ↦ absurd (ground arith)
        | inr there ↦
            elim (Option-cases (map_page s root (u64 (vaddr_page ph + off)) phys user_flags)) [
              | inl no_table ↦ absurd (ground arith)
              | inr (u, e) ↦
                  let made : going
                        (record { tables = u; bytes = fill_page elf ph off phys m.bytes })
                      ≡ going t =
                    rw (there, e) at h in
                  (rw (there, e) (ground arith), ground arith)
            ]
      ]

  module _ {place : ℕ → Option (List ℕ)} (tree : IsTree m.tables root place)
      (open_half : IsOpenHalf m.tables root) (page : off % page_size ≡ 0)
      (room : vaddr_page ph + off + page_size ≤ 2 ^ 47)
      (h : load_page elf ph root off m ≡ going t) where
    mapped : Mapped m.tables t.tables root (vaddr_page ph + off)
    mapped =
        map_fresh_lem (vaddr_page ph + off) tree
          (subst (λ a. map_fresh m.tables root a ≡ some (true, t.tables))
            {x = u64 (vaddr_page ph + off)} {y = vaddr_page ph + off} (omega arith)
            (load_page-going h).0)
          (open_half (vaddr_page ph + off) (omega arith))

    written : t.bytes ≡ fill_page elf ph off (mapped.frame * page_size) m.bytes
    written =
        subst (λ a. t.bytes ≡ fill_page elf ph off a m.bytes) mapped.address (load_page-going h).1

    byte_at :
        (a b : ℕ) → fill_page elf ph off (mapped.frame * page_size) m.bytes a ≡ b → t.bytes a ≡ b
    byte_at a b e = ap (λ (f : ℕ → ℕ). f a) written ∙ e

    load_page-Shows :
        (x : ℕ)
        → off ≤ x
        → x < off + page_size
        → page_offset ph ≤ x
        → Shows t root (vaddr_page ph + x) (segment_byte elf ph x)
    load_page-Shows x lo hi from =
        let y = x - off in
        let va = vaddr_page ph + off in
        let sum : vaddr_page ph + x ≡ va + y = omega arith in
        let aligned : va % page_size ≡ 0 = omega arith in
        let same : translate t.tables root (vaddr_page ph + x) ≡ translate t.tables root va =
          ap (walk t.tables root) (ap indices sum ∙ indices_within va y aligned (omega arith)) in
        let place_ : mapped.frame * page_size + y
            ≡ mapped.frame * page_size + (vaddr_page ph + x) % page_size =
          omega arith in
        let back : off + y ≡ x = omega arith in
        record {
          frame = mapped.frame;
          in_range = omega (arith, mapped.in_range, mapped.later.same_total);
          held = mapped.now_used;
          maps =
              subst (IsMapped (mapped.frame * page_size) user_flags) (sym same) mapped.translates;
          byte =
              subst (λ a. t.bytes a ≡ segment_byte elf ph x) place_
                (byte_at (mapped.frame * page_size + y) (segment_byte elf ph x) (
                  fill_page-inside elf ph off (mapped.frame * page_size) m.bytes y page
                    (omega arith) (omega arith)
                  ∙ ap (segment_byte elf ph) back));
        }

    elsewhere :
        (w : ℕ)
        → (w < vaddr_page ph + off) ⊎ (vaddr_page ph + (off + page_size) ≤ w)
        → w / page_size ≢ (vaddr_page ph + off) / page_size
    elsewhere w (inl below) e = absurd (omega arith)
    elsewhere w (inr above) e = absurd (omega arith)

    top_ne : (w : ℕ) → IsKernel w → w >>> 39 % 512 ≢ (vaddr_page ph + off) >>> 39 % 512
    top_ne w is e = absurd (omega arith)

    -- A frame that was in use lies apart from the new one.
    apart :
        (f : ℕ)
        → used m.tables.pmm f ≡ true
        → (k : ℕ)
        → (f * page_size + k % page_size < mapped.frame * page_size)
          ⊎ (mapped.frame * page_size + page_size ≤ f * page_size + k % page_size)
    apart f u k =
        let ne : f ≢ mapped.frame =
          λ e. absurd (ground (arith, ap (used m.tables.pmm) e, mapped.was_free)) in
        elim (Bool-cases (ltb f mapped.frame)) [
          | inl below ↦ inl (omega (arith, ltb→lt f mapped.frame below))
          | inr above ↦ inr (ground arith)
        ]

    load_page-keeps :
        (w b : ℕ)
        → w < 2 ^ 48
        → (w < vaddr_page ph + off) ⊎ (vaddr_page ph + (off + page_size) ≤ w)
        → Shows m root w b
        → Shows t root w b
    load_page-keeps w b lt out s = record {
      frame = s.frame;
      in_range = omega (arith, s.in_range, mapped.later.same_total);
      held = mapped.later.still s.frame s.in_range s.held;
      maps =
          subst (IsMapped (s.frame * page_size) user_flags)
            (sym (
              mapped.others w
                (λ e. elsewhere w out (indices_page w (vaddr_page ph + off) lt (omega arith) e))))
            s.maps;
      byte = byte_at (s.frame * page_size + w % page_size) b (
          fill_page-outside elf ph off (mapped.frame * page_size) m.bytes
            (s.frame * page_size + w % page_size) (apart s.frame s.held w)
          ∙ s.byte);
    }

    pub load_page-Filled : Filled elf ph m t root off (off + page_size)
    load_page-Filled = record {
      place' = mapped.place';
      tree = mapped.tree;
      opens = λ w lt. mapped.rights w ∙ open_half w lt;
      kernel_half = λ w is. mapped.others w (λ e. top_ne w is (ap top_index e));
      shows = load_page-Shows;
      keeps = load_page-keeps;
    }
