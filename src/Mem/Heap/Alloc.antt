-- ===== src/Mem/Heap/Alloc.antt =====
-- `kmalloc` and `kfree` keep the blocks one behind the other, and those in use apart.
use hvos.Common.{
  ℕ, zero, suc, ◌+◌, ◌-◌, ◌*◌, ◌/◌, ◌^◌, ◌≤◌, ◌<◌, ◌≡◌, refl, sym, ap, subst, ◌≢◌, ◌⊎◌, inl, inr,
  true, false, not, ◌&&◌, ◌||◌, none, some, List, [], ◌∷◌, ◌++◌, arith, leb, ◌==◌, if◌then◌else◌,
  Bool-cases, Option-cases, ==-ne, u64, sub64, listed,
}
use mathlib.Core.Path.{fun_ext}
use hvos.Mem.Paging.{Tables, map_page}
use hvos.Mem.Paging.Map.{>>=-eq-some}
use hvos.Mem.Pmm.{pmm_alloc}
use hvos.Mem.Heap.{
  Heap, header_size, expand_pages, heap_expand, first_fit, split, mark, new_block, round_up,
  kmalloc, kfree,
}
use hvos.Mem.Heap.Chain.{Chain-le, Chain-in, Chain-apart, Chain-same, Chain-append}
use hvos.Mem.Heap.Cut.{Distinct, IsValid, first_fit-some, cut, Taken, split-Taken}

module _ (h : Heap) (bs : List ℕ) (b : ℕ) (rest : List ℕ) (v : IsValid h bs)
    (was : listed h.free_list b ≡ true) (once : Distinct rest)
    (left : (a : ℕ) → listed rest a ≡ (not (a == b) && listed h.free_list a)) where
  -- The block `b` is off the free list.
  unlinked : IsValid (mark (record h { free_list = rest }) b false) bs
  unfolding mark
  unlinked = record {
    tiles = v.tiles;
    positive = v.positive;
    fits = v.fits;
    once = once;
    free_listed = λ a l. ground (arith, left a, v.free_listed a);
    listed_free = λ a l f. ground (arith, left a, v.listed_free a);
  }

-- The order of the two writes does not matter, as the rest begins behind the block.
mark-split :
    (h : Heap) (b n : ℕ)
    → b + header_size + n < 2 ^ 64
    → mark (split h b n) b false ≡ split (mark h b false) b n
unfolding mark split
mark-split h b n fits =
    let e₁ : u64 (b + header_size + n) ≡ b + header_size + n = omega arith in
    rw e₁ (elim (Bool-cases (leb (u64 (n + header_size + 16)) (h.size b))) [
      | inl room ↦ rw room (
          let swapped : (λ (a : ℕ).
            if a == b then false else if a == b + header_size + n then true else h.is_free a)
              ≡ (λ (a : ℕ).
                  if a == b + header_size + n
                  then true
                  else if a == b
                  then false
                  else h.is_free a) =
            fun_ext (λ a. ground arith) in
          ap (λ f. record (cut h b n) { is_free = f }) swapped)
      | inr tight ↦ rw tight
    ])

expand_pages-limit :
    (n : ℕ) (s s' : Tables) (root limit limit' : ℕ)
    → expand_pages n s root limit ≡ some (s', limit')
    → limit + n * 4096 < 2 ^ 64
    → limit' ≡ limit + n * 4096
unfolding expand_pages
expand_pages-limit zero s s' root limit limit' e h = ground arith
expand_pages-limit (suc n) s s' root limit limit' e h =
    elim (Bool-cases ((pmm_alloc s.pmm).0 == 0)) [
      | inl full ↦ absurd (ground arith)
      | inr got ↦
          let t : Tables = record s { pmm = (pmm_alloc s.pmm).1 } in
          let (u, e₁, e₂) =
            >>=-eq-some (map_page t root limit (pmm_alloc s.pmm).0 3)
              (λ s'. expand_pages n s' root (u64 (limit + 4096))) (rw got at e) in
          let ih = expand_pages-limit n u s' root (u64 (limit + 4096)) limit' e₂ (omega arith) in
          omega (arith, ih)
    ]

-- What a call of `kmalloc` that returns `p` has done.
pub record Allocated (h : Heap) (bs : List ℕ) (size p : ℕ) (h' : Heap) (bs' : List ℕ) : Type 0 where
  pub valid : IsValid h' bs'
  pub block : (listed bs' (p - header_size) ≡ true) × (h'.is_free (p - header_size) ≡ false)
  pub room : (header_size < p) × (size ≤ h'.size (p - header_size))
  pub kept :
      (a : ℕ)
      → listed bs a ≡ true
      → h.is_free a ≡ false
      → (listed bs' a ≡ true) × (h'.is_free a ≡ false) × (h'.size a ≡ h.size a)
  pub apart :
      (a : ℕ)
      → listed bs a ≡ true
      → h.is_free a ≡ false
      → (p + h'.size (p - header_size) ≤ a) ⊎ (a + header_size + h'.size a ≤ p - header_size)

Taken-Allocated :
    (h g : Heap) (bs cs : List ℕ) (b n size : ℕ) (h' : Heap) (bs' : List ℕ)
    → Taken g cs b n h' bs'
    → 0 < b
    → size ≤ n
    → ((a : ℕ)
        → listed bs a ≡ true
        → h.is_free a ≡ false
        → (a ≢ b) × (listed cs a ≡ true) × (g.is_free a ≡ false) × (g.size a ≡ h.size a))
    → Allocated h bs size (b + header_size) h' bs'
Taken-Allocated h g bs cs b n size h' bs' t pos le same =
    let e : b + header_size - header_size ≡ b = omega arith in
    record {
      valid = t.valid;
      block = rw e (t.block.0, t.block.1);
      room = rw e (omega arith, omega (arith, t.block));
      kept = λ a l f. ground (arith, same a l f, t.others a);
      apart = λ a l f.
          let s = same a l f in
          let o = t.others a (s.1) (s.0) in
          rw e (
            Chain-apart h'.size h'.start h'.limit b a bs' t.valid.tiles t.block.0 o.0
              (λ q. s.0 (sym q)));
    }

first_fit-none :
    (size : ℕ → ℕ) (bs : List ℕ) (n b : ℕ)
    → first_fit size bs n ≡ none
    → listed bs b ≡ true
    → size b < n
unfolding first_fit
first_fit-none size [] n b e l = cc
first_fit-none size (c ∷ cs) n b e l = elim (Bool-cases (leb n (size c))) [
  | inl room ↦ absurd (ground arith)
  | inr full ↦ elim (Option-cases (first_fit size cs n)) [
    | inl no_more ↦ ground (arith, first_fit-none size cs n b no_more)
    | inr (p, f) ↦ absurd (ground arith)
  ]
]

listed-snoc : (bs : List ℕ) (z a : ℕ) → listed (bs ++ z ∷ []) a ≡ (listed bs a || z == a)
listed-snoc [] z a = ground arith
listed-snoc (b ∷ bs) z a = ground (arith, listed-snoc bs z a)

module _ (h : Heap) (bs : List ℕ) (v : IsValid h bs) where
  limit_new : listed bs h.limit ≡ false
  limit_new = elim (Bool-cases (listed bs h.limit)) [
    | inr new ↦ new
    | inl old ↦ absurd (omega (arith, Chain-in h.size h.start h.limit h.limit bs v.tiles old))
  ]

  new_block-IsValid :
      (tables : Tables) (limit : ℕ)
      → h.limit + header_size ≤ limit
      → limit < 2 ^ 64
      → IsValid (new_block h tables limit) (bs ++ h.limit ∷ [])
  unfolding new_block mark
  new_block-IsValid tables limit more fits =
      let g = new_block h tables limit in
      let same : (a : ℕ) → listed bs a ≡ true → g.size a ≡ h.size a =
        λ a l. ground (arith, limit_new) in
      record {
        tiles =
            Chain-append g.size h.start h.limit limit bs
              (Chain-same h.size g.size h.start h.limit bs same v.tiles) (ground arith);
        positive = v.positive;
        fits = fits;
        once = v.once;
        free_listed = λ a l. ground (arith, listed-snoc bs h.limit a, limit_new, v.free_listed a);
        listed_free = λ a l f. ground (arith, listed-snoc bs h.limit a, v.listed_free a);
      }

  -- The block that `first_fit` found.
  from_list :
      (size b : ℕ) (rest : List ℕ)
      → size + 8192 < 2 ^ 64
      → first_fit h.size h.free_list (round_up size) ≡ some (b, rest)
      → (bs' : List ℕ) × Allocated h bs size
          (b + header_size)
          (mark (split (record h { free_list = rest }) b (round_up size)) b false)
          bs'
  unfolding mark
  from_list size b rest small e =
      let n = round_up size in
      let (was, le, once, left) = first_fit-some h.size h.free_list n b rest e v.once in
      let g = mark (record h { free_list = rest }) b false in
      let known = v.free_listed b was in
      let i = Chain-in h.size h.start h.limit b bs v.tiles known.0 in
      let w = unlinked h bs b rest v was once left in
      let (bs', t) = split-Taken g bs b n w known.0 (ground arith) (omega arith) le in
      let moved = mark-split (record h { free_list = rest }) b n (omega (arith, i, v.fits)) in
      (
        bs',
        subst (λ x. Allocated h bs size (b + header_size) x bs') (sym moved)
            (Taken-Allocated h g bs bs b n size (split g b n) bs' t (omega (arith, i, v.positive))
              (omega arith) (λ a l f. ground (arith, known.1))),
      )

  -- The block at the old limit.
  from_limit :
      (size limit : ℕ) (tables : Tables)
      → h.limit + size + 8192 < 2 ^ 64
      → heap_expand h (u64 (round_up size + header_size)) ≡ some (tables, limit)
      → (bs' : List ℕ) × Allocated h bs size
          (h.limit + header_size)
          (split (new_block h tables limit) h.limit (round_up size))
          bs'
  unfolding new_block mark
  from_limit size limit tables small e =
      let n = round_up size in
      let pages = u64 (u64 (n + header_size) + header_size + 4095) / 4096 in
      let grown = expand_pages-limit pages h.tables tables h.root h.limit limit e (omega arith) in
      let g = new_block h tables limit in
      let cs = bs ++ h.limit ∷ [] in
      let w = new_block-IsValid tables limit (omega arith) (omega arith) in
      let here : listed cs h.limit ≡ true = ground (arith, listed-snoc bs h.limit h.limit) in
      let (bs', t) =
        split-Taken g cs h.limit n w here (ground arith) (omega arith) (ground arith) in
      (
        bs',
        Taken-Allocated h g bs cs h.limit n size (split g h.limit n) bs' t
            (omega (arith, Chain-le h.size h.start h.limit bs v.tiles, v.positive)) (omega arith)
            (λ a l f. ground (arith, listed-snoc bs h.limit a, limit_new)),
      )

  -- On a heap whose blocks lie one behind the other from its start to its limit, and whose free
  -- list has the free ones, let `kmalloc` be asked for at least one byte, with the address space
  -- not at its end. Either it panics for want of memory, and then no free block had room; or it
  -- returns the bytes behind a header, at least as many as asked for. The heap is well-formed
  -- again, every block that was in use still is, with its size, and neither overlaps the new one.
  pub kmalloc_lem :
      (size : ℕ)
      → 0 < size
      → h.limit + size + 8192 < 2 ^ 64
      → ((kmalloc h size ≡ none)
          × ((b : ℕ) → listed h.free_list b ≡ true → h.size b < round_up size))
        ⊎ ((p : ℕ) × (h' : Heap) × (bs' : List ℕ) × (kmalloc h size ≡ some (p, h'))
            × Allocated h bs size p h' bs')
  unfolding kmalloc
  kmalloc_lem size pos small = elim (Option-cases (first_fit h.size h.free_list (round_up size))) [
    | inr ((b, rest), e) ↦
        let (was, le, once, left) =
          first_fit-some h.size h.free_list (round_up size) b rest e v.once in
        let i = Chain-in h.size h.start h.limit b bs v.tiles ((v.free_listed b was).0) in
        let (bs', done) = from_list size b rest (omega arith) e in
        let address : u64 (b + header_size) ≡ b + header_size = omega (arith, i, v.fits) in
        inr (
          b + header_size,
          mark (split (record h { free_list = rest }) b (round_up size)) b false,
          bs',
          rw (==-ne size 0 (λ q. omega arith), e, address, kmalloc),
          done,
        )
    | inl full ↦ elim (Option-cases (heap_expand h (u64 (round_up size + header_size)))) [
      | inl out ↦ inl (
        rw (==-ne size 0 (λ q. omega arith), full, out, kmalloc),
        λ b l. first_fit-none h.size h.free_list (round_up size) b full l,
      )
      | inr ((tables, limit), e) ↦
          let (bs', done) = from_limit size limit tables small e in
          let address : u64 (h.limit + header_size) ≡ h.limit + header_size =
            omega (arith, v.fits) in
          inr (
            h.limit + header_size,
            split (new_block h tables limit) h.limit (round_up size),
            bs',
            rw (==-ne size 0 (λ q. omega arith), full, e, address, kmalloc),
            done,
          )
    ]
  ]

  -- On such a heap, `kfree` of a block in use makes it free and no other block; of NULL, or of a
  -- block that is free, it changes nothing; and the heap is well-formed again, of the same blocks.
  pub kfree_lem :
      (b : ℕ)
      → listed bs b ≡ true
      → let h' = kfree h (b + header_size) in
        IsValid h' bs
        × (kfree h 0 ≡ h)
        × (h.is_free b ≡ true → h' ≡ h)
        × (h'.size ≡ h.size)
        × ((a : ℕ) → h'.is_free a ≡ (a == b || h.is_free a))
  unfolding kfree mark
  kfree_lem b l =
      let i = Chain-in h.size h.start h.limit b bs v.tiles l in
      let back : sub64 (b + header_size) header_size ≡ b = omega (arith, i, v.fits) in
      let set : b + header_size == 0 ≡ false = ground arith in
      elim (Bool-cases (h.is_free b)) [
        | inl free ↦ rw (back, set, free) (v, refl, λ f. refl, refl, λ a. ground arith)
        | inr used ↦
            rw (back, set, used)
              (
                record {
                  tiles = v.tiles;
                  positive = v.positive;
                  fits = v.fits;
                  once = (ground (arith, v.free_listed b), v.once);
                  free_listed = λ a m. ground (arith, v.free_listed a);
                  listed_free = λ a m f. ground (arith, v.listed_free a);
                },
                refl,
                λ f. absurd (ground arith),
                refl,
                λ a. ground arith,
              )
      ]
