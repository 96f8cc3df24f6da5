-- ===== src/Rawimg/Format/Table/Search.antt =====
-- What `rawimg_find_format` finds.
use chdkptp_astro.Base.{
  ℕ, List, [], ◌∷◌, some, ◌≡◌, ◌≢◌, refl, subst, arith, Bool, true, false, ◌⊎◌, inl, inr, ◌&&◌,
  ◌||◌, ◌==◌, if◌then◌else◌,
}
use chdkptp_astro.Rawimg.Format.{RawFormat, raw_formats, find_in, find_format, endian_l}
use chdkptp_astro.Rawimg.Format.Layout.{Layout, Writer}
use chdkptp_astro.Rawimg.Format.Table.{
  format_14b, Layout_10l, Layout_10b, Layout_12l, Layout_12b, Layout_14l, Layout_14b, Writer-10l,
  Writer-10b, Writer-12l, Writer-12b, Writer-14l,
}
use chdkptp_astro.Rawimg.Format.Table.Small.{
  Layout_8l, Layout_16l, Layout_16b, Writer-8l, Writer-16l, Writer-16b,
}

-- Every element of a list.
data All (P : RawFormat → Type 0) : List RawFormat → Type 0 where
  no_more : All P []
  one_more : {fmt : RawFormat} {rest : List RawFormat} → P fmt → All P rest → All P (fmt ∷ rest)

abbrev matches : ℕ → ℕ → RawFormat → Bool
matches bpp endian fmt = (fmt.bpp == bpp) && ((bpp == 8) || (fmt.endian == endian))

abbrev pub IsMatch : ℕ → ℕ → RawFormat → Type 0
IsMatch bpp endian fmt = (fmt.bpp ≡ bpp) × ((bpp ≡ 8) ⊎ (fmt.endian ≡ endian))

matches-IsMatch :
    (bpp endian : ℕ) (fmt : RawFormat) → matches bpp endian fmt ≡ true → IsMatch bpp endian fmt
matches-IsMatch bpp endian fmt h = ground arith

-- The search finds an element of the table with the right depth, and of the right byte order but
-- at 8 bits.
find_in-All :
    (P : RawFormat → Type 0) (bpp endian : ℕ) (formats : List RawFormat) (fmt : RawFormat)
    → All P formats
    → find_in bpp endian formats ≡ some fmt
    → P fmt × IsMatch bpp endian fmt
unfolding find_in
find_in-All P bpp endian [] fmt no_more e = absurd cc
find_in-All P bpp endian (f ∷ rest) fmt (one_more p ps) e =
    decided (matches bpp endian f) refl (find_in-All P bpp endian rest fmt ps) e
  where
    decided :
        (b : Bool)
        → matches bpp endian f ≡ b
        → (find_in bpp endian rest ≡ some fmt → P fmt × IsMatch bpp endian fmt)
        → (if b then some f else find_in bpp endian rest) ≡ some fmt
        → P fmt × IsMatch bpp endian fmt
    decided true m ih e =
        let same : f ≡ fmt = cc in
        subst (λ g. P g × IsMatch bpp endian g) same (p, matches-IsMatch bpp endian f m)
    decided false m ih e = ih e

-- At 14 bits only the little-endian format has a writer.
abbrev pub Writable : RawFormat → Type 0
Writable fmt = (fmt.bpp ≢ 14) ⊎ (fmt.endian ≡ endian_l)

abbrev pub HasLayout : RawFormat → Type 0
HasLayout fmt = (layout : Layout fmt) × (Writable fmt → Writer fmt layout)

All-formats : All HasLayout raw_formats
All-formats =
    one_more (Layout_8l, λ w. Writer-8l)
      (one_more (Layout_10l, λ w. Writer-10l)
        (one_more (Layout_10b, λ w. Writer-10b)
          (one_more (Layout_12l, λ w. Writer-12l)
            (one_more (Layout_12b, λ w. Writer-12b)
              (one_more (Layout_14l, λ w. Writer-14l)
                (one_more (Layout_14b, unwritable)
                  (one_more (Layout_16l, λ w. Writer-16l)
                    (one_more (Layout_16b, λ w. Writer-16b) no_more))))))))
  where
    unwritable : Writable format_14b → Writer format_14b Layout_14b
    unwritable (inl h) = absurd (h refl)
    unwritable (inr h) = absurd (omega arith)

pub find_format-HasLayout :
    (bpp endian : ℕ) (fmt : RawFormat)
    → find_format bpp endian ≡ some fmt
    → HasLayout fmt × IsMatch bpp endian fmt
unfolding find_format
find_format-HasLayout bpp endian fmt e =
    find_in-All HasLayout bpp endian raw_formats fmt All-formats e
