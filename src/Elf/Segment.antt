-- ===== src/Elf/Segment.antt =====
-- The pages of a segment, and the segments of a program one after the other.
use hvos.Common.{
  ℕ, zero, suc, ◌+◌, ◌-◌, ◌*◌, ◌%◌, ◌^◌, ◌≤◌, ◌≡◌, refl, subst, ◌∙◌, inl, inr, Option, List, arith,
  ltb, if◌then◌else◌, Bool-cases, ltb→lt,
}
use hvos.Mem.Paging.Walk.{IsTree}
use hvos.Elf.{
  page_size, Machine, Pheader, page_offset, vaddr_page, total_size, Progress, halted, out_of_memory,
  going, ◌>>=◌, load_page, load_pages,
}
use hvos.Elf.Page.{segment_byte, IsOpenHalf, Filled, load_page-Filled}

pub >>=-going :
    (p : Progress) (f : Machine → Progress) (t : Machine)
    → (p >>= f) ≡ going t
    → (u : Machine) × (p ≡ going u) × (f u ≡ going t)
>>=-going halted f t h = cc
>>=-going (out_of_memory m) f t h = cc
>>=-going (going m) f t h = (m, refl, h)

module _ {elf : ℕ → ℕ} {ph : Pheader} {root : ℕ} where
  Filled-none :
      {m : Machine} {place : ℕ → Option (List ℕ)} (off : ℕ)
      → IsTree m.tables root place
      → IsOpenHalf m.tables root
      → Filled elf ph m m root off off
  Filled-none {m} {place} off tree open_half = record {
    place' = place;
    tree = tree;
    opens = open_half;
    kernel_half = λ w is. refl;
    shows = λ x lo hi from. absurd (omega arith);
    keeps = λ w b lt out s. s;
  }

  Filled-trans :
      {m u t : Machine} {from mid to : ℕ}
      → from ≤ mid
      → mid ≤ to
      → vaddr_page ph + to ≤ 2 ^ 47
      → Filled elf ph m u root from mid
      → Filled elf ph u t root mid to
      → Filled elf ph m t root from to
  Filled-trans {m} {u} {t} {from} {mid} {to} le le' room a b = record {
    place' = b.place';
    tree = b.tree;
    opens = b.opens;
    kernel_half = λ w is. b.kernel_half w is ∙ a.kernel_half w is;
    shows = λ x lo hi start. elim (Bool-cases (ltb x mid)) [
      | inl before ↦
          b.keeps (vaddr_page ph + x) (segment_byte elf ph x) (omega arith)
            (inl (omega (arith, ltb→lt x mid before))) (a.shows x lo (ltb→lt x mid before) start)
      | inr after ↦ b.shows x (ground arith) hi start
    ];
    keeps = λ w v lt out s.
        b.keeps w v lt (elim out [ inl l ↦ inl (omega arith) | inr r ↦ inr r ])
          (a.keeps w v lt (elim out [ inl l ↦ inl l | inr r ↦ inr (omega arith) ]) s);
  }

  pub load_pages-Filled :
      (n off : ℕ) {m t : Machine} {place : ℕ → Option (List ℕ)}
      → IsTree m.tables root place
      → IsOpenHalf m.tables root
      → off % page_size ≡ 0
      → vaddr_page ph + off + n * page_size ≤ 2 ^ 47
      → load_pages elf ph root n off m ≡ going t
      → Filled elf ph m t root off (off + n * page_size)
  unfolding load_pages
  load_pages-Filled zero off {m} {t} tree open_half page room h =
      let same : m ≡ t = ground arith in
      subst (λ (s : Machine). Filled elf ph m s root off (off + zero * page_size)) same
        (subst (Filled elf ph m m root off) {x = off} {y = off + zero * page_size} (omega arith)
          (Filled-none off tree open_half))
  load_pages-Filled (suc n) off {m} {t} tree open_half page room h =
      let (u, e, rest) = >>=-going (load_page elf ph root off m) _ t h in
      let first = load_page-Filled elf ph root off m u tree open_half page (omega arith) e in
      let more =
        load_pages-Filled n (off + page_size) first.tree first.opens (omega arith) (omega arith)
          rest in
      subst (Filled elf ph m t root off) {x = off + page_size + n * page_size}
        {y = off + suc n * page_size} (omega arith)
        (Filled-trans (omega arith) (omega arith) (omega arith) first more)

abbrev pub segment_end : Pheader → ℕ
segment_end ph = vaddr_page ph + total_size ph

-- `total_size` is what the segment needs, in pages.
pub total_size_lem :
    (ph : Pheader)
    → ph.p_vaddr + ph.p_memsz ≤ 2 ^ 47
    → (total_size ph % page_size ≡ 0)
      × (page_offset ph + ph.p_memsz ≤ total_size ph)
      × (vaddr_page ph + total_size ph ≤ 2 ^ 47)
unfolding total_size
total_size_lem ph fits = ground arith

-- The byte that user code is to find at offset `k` of a segment.
abbrev pub image_byte : (ℕ → ℕ) → Pheader → ℕ → ℕ
image_byte elf ph k = if ltb k ph.p_filesz then elf (ph.p_offset + k) else 0

pub segment_byte-image :
    (elf : ℕ → ℕ) (ph : Pheader) (k : ℕ)
    → segment_byte elf ph (page_offset ph + k) ≡ image_byte elf ph k
segment_byte-image elf ph k =
    let e : page_offset ph + k - page_offset ph ≡ k = omega arith in rw e refl
