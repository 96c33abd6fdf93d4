-- ===== src/Text/Lines.antt =====
-- `strings.Split`, `strings.Join` and `bufio.ScanLines` undo one another.
use mpd_virt_macos.Base.{ℕ, List, [], ◌∷◌, ◌++◌, ◌≡◌, ◌≢◌, refl, arith, All, Lacks, nat_eq}
use mpd_virt_macos.Text.{Text, split, cons_head, join, raw_lines, drop_last_empty}

pub split-ne-nil : (b : ℕ) (s : Text) → split b s ≢ []
unfolding split
split-ne-nil b [] = λ e. cc
split-ne-nil b (c ∷ s) = ground (arith, cons_head-ne-nil c (split b s))
  where
    cons_head-ne-nil : (d : ℕ) (ls : List Text) → cons_head d ls ≢ []
    cons_head-ne-nil d [] = λ e. cc
    cons_head-ne-nil d (l ∷ ls) = λ e. cc

cons_head-append :
    (c : ℕ) (ls ms : List Text) → ls ≢ [] → cons_head c (ls ++ ms) ≡ cons_head c ls ++ ms
cons_head-append c [] ms h = absurd (h refl)
cons_head-append c (l ∷ ls) ms h = refl

-- Splitting at a separator splits both sides.
pub split-append : (b : ℕ) (s t : Text) → split b (s ++ b ∷ t) ≡ split b s ++ split b t
unfolding split
split-append b [] t = ground arith
split-append b (c ∷ s) t =
    ground
      (arith, split-append b s t, cons_head-append c (split b s) (split b t) (split-ne-nil b s))

pub split-Lacks : (b : ℕ) (s : Text) → Lacks b s → split b s ≡ s ∷ []
unfolding split
split-Lacks b [] h = refl
split-Lacks b (c ∷ s) h = ground (arith, split-Lacks b s h.1, h.0)

pub split-line : (b : ℕ) (s t : Text) → Lacks b s → split b (s ++ b ∷ t) ≡ s ∷ split b t
split-line b s t h = rw (split-append b s t, split-Lacks b s h)

All-Lacks-cons_head :
    (b c : ℕ) (ls : List Text) → c ≢ b → All (Lacks b) ls → All (Lacks b) (cons_head c ls)
All-Lacks-cons_head b c [] h k = ((h, tt), tt)
All-Lacks-cons_head b c (l ∷ ls) h k = ((h, k.0), k.1)

pub split-All-Lacks : (b : ℕ) (s : Text) → All (Lacks b) (split b s)
unfolding split
split-All-Lacks b [] = (tt, tt)
split-All-Lacks b (c ∷ s) = ground (
  arith,
  split-All-Lacks b s,
  λ (h : c ≢ b). All-Lacks-cons_head b c (split b s) h (split-All-Lacks b s),
)

pub split-join :
    (b : ℕ) (ls : List Text) → ls ≢ [] → All (Lacks b) ls → split b (join (b ∷ []) ls) ≡ ls
unfolding join
split-join b [] h k = absurd (h refl)
split-join b (l ∷ []) h k = split-Lacks b l k.0
split-join b (l ∷ m ∷ ls) h k =
    rw (split-line b l (join (b ∷ []) (m ∷ ls)) k.0, split-join b (m ∷ ls) (λ e. cc) k.1)

join-cons_head :
    (b c : ℕ) (ls : List Text) → ls ≢ [] → join (b ∷ []) (cons_head c ls) ≡ c ∷ join (b ∷ []) ls
unfolding join
join-cons_head b c [] h = absurd (h refl)
join-cons_head b c (l ∷ []) h = refl
join-cons_head b c (l ∷ m ∷ ls) h = refl

join_nil-cons : (b : ℕ) (ls : List Text) → ls ≢ [] → join (b ∷ []) ([] ∷ ls) ≡ b ∷ join (b ∷ []) ls
unfolding join
join_nil-cons b [] h = absurd (h refl)
join_nil-cons b (l ∷ ls) h = refl

pub join-split : (b : ℕ) (s : Text) → join (b ∷ []) (split b s) ≡ s
unfolding split
join-split b [] = unfold join in refl
join-split b (c ∷ s) = ground (
  arith,
  join-split b s,
  join_nil-cons b (split b s) (split-ne-nil b s),
  join-cons_head b c (split b s) (split-ne-nil b s),
)

-- Lines, each with its newline.
unfoldable pub unlines : List Text → Text
unlines [] = []
unlines (l ∷ ls) = l ++ b'\n' ∷ unlines ls

split-unlines : (ls : List Text) → All (Lacks b'\n') ls → split b'\n' (unlines ls) ≡ ls ++ [] ∷ []
unfolding unlines
split-unlines [] h = unfold split in refl
split-unlines (l ∷ ls) h = rw (split-line b'\n' l (unlines ls) h.0, split-unlines ls h.1)

drop_last_empty-append : (ls : List Text) → drop_last_empty (ls ++ [] ∷ []) ≡ ls
drop_last_empty-append [] = refl
drop_last_empty-append (l ∷ []) = refl
drop_last_empty-append (l ∷ m ∷ ls) = rw (drop_last_empty-append (m ∷ ls))

-- A scanner gets back the lines that were written.
pub raw_lines-unlines : (ls : List Text) → All (Lacks b'\n') ls → raw_lines (unlines ls) ≡ ls
unfolding raw_lines
raw_lines-unlines ls h = rw (split-unlines ls h) (drop_last_empty-append ls)
