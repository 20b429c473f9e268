-- ===== src/Color.antt =====
-- lib/mm_color.c and lib/mm_color.h: the allocator that hands out blocks by page colour. Its memory is a
-- mapping of huge pages, cut into areas of three shares; a share's areas start on pages of one colour.
-- An address is a number and 0 is NULL; `none` is an access outside an array. malloc is taken to
-- succeed. What the operating system returns to `mc_init` is its argument.
pub mod Shape
pub mod Areas
pub mod Alloc
pub mod Fill
pub mod Give
pub mod Calls
pub mod Start
use prefix_lookup_mc.Base.{
  ℕ, zero, suc, ◌+◌, ◌-◌, ◌*◌, ◌/◌, ◌%◌, ◌^◌, bit_and, Bool, true, false, ◌&&◌, Option, none, some,
  List, [], ◌∷◌, ◌++◌, length, get_elem?, set, store, ltb, leb, ◌==◌, if◌then◌else◌, ◌>>=◌, map,
  replicate,
}
use prefix_lookup_mc.Mm.{node_size}

abbrev pub memory_size : ℕ
memory_size = 32 * 1024 * 1024

abbrev pub page_size : ℕ
page_size = 4096

abbrev pub cache_overlap : ℕ
cache_overlap = 32 * 1024

abbrev pub hpage_size : ℕ
hpage_size = 2 * 1024 * 1024

abbrev pub page_colors : ℕ
page_colors = 8

-- `struct cache_share`
pub record CacheShare : Type 0 where
  pub page_color : ℕ
  pub size : ℕ

-- `struct lm_area`, less its pointer to the share, in whose list it is.
pub record LmArea : Type 0 where
  pub start : ℕ
  pub alloc : ℕ
  pub left : ℕ

-- `struct mc_priv`; the arrays by share, and by share and number of nodes, are functions. `bytes` is
-- what the mapping holds.
pub record McPriv : Type 0 where
  pub addr : ℕ
  pub pfnbuf : List ℕ
  pub cs : ℕ → CacheShare
  pub lm : ℕ → List LmArea
  pub free_head : ℕ → ℕ → List ℕ
  pub lma : ℕ
  pub free_node : ℕ → ℕ → ℕ
  pub bytes : ℕ → ℕ

-- The number of rows of `free_head`, and the length of one.
abbrev pub share_num : ℕ
share_num = 3

abbrev pub head_num : ℕ
head_num = 128

abbrev pub with_lm : McPriv → ℕ → List LmArea → McPriv
with_lm m share areas = record m { lm = λ i. if i == share then areas else m.lm i }

abbrev pub with_free : McPriv → ℕ → ℕ → List ℕ → McPriv
with_free m share node_num ps = record m {
  free_head = λ i j. if i == share && j == node_num then ps else m.free_head i j;
}

-- `memset(p, 0, n)`
abbrev pub zeroed : McPriv → ℕ → ℕ → McPriv
zeroed m p n = record m { bytes = λ x. if leb p x && ltb x (p + n) then 0 else m.bytes x }

-- An entry of /proc/PID/pagemap, and `addr_pfn` for all of them: a read that fails ends it.
unfoldable pub pfn_of : ℕ → ℕ
pfn_of entry = if bit_and entry (2 ^ 63) == 0 then 0 else bit_and entry (2 ^ 55 - 1)

unfoldable pub addr_pfn : List (Option ℕ) → List ℕ → List ℕ
addr_pfn [] pfns = pfns
addr_pfn (none ∷ entries) pfns = pfns
addr_pfn (some entry ∷ entries) [] = []
addr_pfn (some entry ∷ entries) (pfn ∷ pfns) = pfn_of entry ∷ addr_pfn entries pfns

-- The sizes of the shares.
abbrev pub share_size : ℕ → ℕ
share_size share = if share == 0 then 2 * 4 * 1024 else if share == 1 then 5 * 4 * 1024 else 4096

-- The loop of `mc_init` from share `i` on: the colours, and the first area of every share.
unfoldable pub init_shares : ℕ → ℕ → ℕ → ℕ → McPriv → McPriv
init_shares zero i old_size next_color m = m
init_shares (suc rounds) i old_size next_color m =
    init_shares rounds (suc i) (old_size + share_size i)
      ((next_color + share_size i / page_size) % page_colors)
      (record m {
        cs =
            λ j. if j == i then record { page_color = next_color; size = share_size i } else m.cs j;
        lm = λ j.
            if j == i
            then (record {
              start = m.addr + old_size;
              alloc = m.addr + old_size;
              left = share_size i;
            }
                ∷ [])
            else m.lm j;
      })

-- The state before the loop: every huge page is written to.
abbrev pub mapped_priv : ℕ → List ℕ → (ℕ → ℕ) → McPriv
mapped_priv addr pfnbuf bytes = record {
  addr = addr;
  pfnbuf = pfnbuf;
  cs = λ i. record { page_color = 0; size = 0 };
  lm = λ i. [];
  free_head = λ i j. [];
  lma = 0;
  free_node = λ i j. 0;
  bytes = λ x.
      if (leb addr x && ltb x (addr + memory_size)) && (x - addr) % hpage_size == 0
      then 120
      else bytes x;
}

-- `mc_init` with the results of open, mmap and the reads; `buffer` is what malloc leaves in pfnbuf.
-- `none` is the -1 of a call that failed.
unfoldable pub mc_init : Bool → Option ℕ → List (Option ℕ) → List ℕ → (ℕ → ℕ) → Option McPriv
mc_init opened mapped entries buffer bytes =
    if opened
    then (mapped >>= λ addr.
        let pfnbuf = addr_pfn entries buffer in
        get_elem? pfnbuf 0 >>= λ pfn.
        some (init_shares share_num 0 0 (pfn % page_colors) (mapped_priv addr pfnbuf bytes)))
    else none

-- The start of the area behind `last`: in its huge page if there is room, else in the next one, on the
-- first page of the colour. `none` is a huge page behind the mapping.
unfoldable pub lma_init : McPriv → CacheShare → LmArea → Option LmArea
lma_init m pcs last =
    let last_page = (last.start - m.addr) / hpage_size in
    let new_page = (last.start + cache_overlap + pcs.size - m.addr) / hpage_size in
    let base = m.addr + new_page * hpage_size in
    let area : ℕ → LmArea = λ start. record { start = start; alloc = start; left = pcs.size } in
    if new_page == last_page
    then some (area (last.start + cache_overlap))
    else (get_elem? m.pfnbuf new_page >>= λ pfn.
        let color = pfn % page_colors in
        some (
          area (
            if ltb color pcs.page_color
            then base + (pcs.page_color - color) * page_size
            else if ltb pcs.page_color color
            then base + (page_colors + pcs.page_color - color) * page_size
            else base)))

-- The index of the first area with more than `n` bytes left.
unfoldable pub first_fit : List LmArea → ℕ → Option ℕ
first_fit [] n = none
first_fit (ar ∷ areas) n =
    if ltb n ar.left then some 0 else (first_fit areas n >>= λ k. some (suc k))

unfoldable pub last_area : List LmArea → Option LmArea
last_area [] = none
last_area (ar ∷ []) = some ar
last_area (ar ∷ (ar' ∷ areas)) = last_area (ar' ∷ areas)

-- The index of an area of the share, and the state with a new area where none was found.
unfoldable pub find_lma : McPriv → ℕ → ℕ → Option (ℕ × McPriv)
find_lma m share node_num = elim (first_fit (m.lm share) (node_num * node_size)) [
  | some k ↦ some (k, m)
  | none ↦ last_area (m.lm share) >>= λ last. lma_init m (m.cs share) last >>= λ new.
      some (
        length (m.lm share),
        record (with_lm m share (m.lm share ++ (new ∷ []))) { lma = m.lma + 1 },
      )
]

unfoldable pub lma_alloc : McPriv → ℕ → ℕ → ℕ → Option (ℕ × McPriv)
lma_alloc m share k node_num = do
  ar ← get_elem? (m.lm share) k
  let n = node_num * node_size
  areas ← store (m.lm share) k (record ar { alloc = ar.alloc + n; left = ar.left - n })
  some (if ltb n ar.left then (ar.alloc, zeroed (with_lm m share areas) ar.alloc n) else (0, m))

unfoldable pub lm_alloc : McPriv → ℕ → ℕ → Option (ℕ × McPriv)
lm_alloc m node_num share =
    if ltb node_num head_num
    then elim (m.free_head share node_num) [
      | p ∷ ps ↦ some (p, zeroed (with_free m share node_num ps) p (node_num * node_size))
      | [] ↦ find_lma m share node_num >>= λ r. lma_alloc (r.1) share (r.0) node_num
    ]
    else none

-- The share of a level.
unfoldable pub share_of : ℕ → ℕ
share_of level = if level == 0 then 0 else if level == 1 then 1 else 2

unfoldable pub mc_alloc_node : McPriv → ℕ → ℕ → Option (ℕ × McPriv)
mc_alloc_node m node_num level =
    if node_num == 0
    then some (0, m)
    else if ltb 128 node_num
    then some (0, m)
    else lm_alloc m node_num (share_of level)

unfoldable pub mc_dealloc_node : McPriv → ℕ → ℕ → ℕ → Option McPriv
mc_dealloc_node m node_num level p =
    let share = share_of level in
    let freed = with_free m share node_num (p ∷ m.free_head share node_num) in
    if ltb 128 node_num then some m else if ltb node_num head_num then some freed else none

-- `mc_profile`, up to the printing.
unfoldable pub mc_profile : McPriv → McPriv
mc_profile m = record m {
  free_node = λ i j.
      if ltb i share_num && ltb j head_num
      then m.free_node i j + length (m.free_head i j)
      else m.free_node i j;
}
