-- ===== src/Fs/Files/Laws.antt =====
-- What `os.Rename`, `os.Remove` and `os.Truncate` leave at a path.
use mpd_virt_macos.Base.{
  ℕ, zero, suc, ◌-◌, true, false, [], ◌∷◌, ◌++◌, Option, none, some, ◌==◌, nat_eq, list_eq, ==_self,
  ==_ne, ==_eq, if◌then◌else◌, ok, err, ◌≡◌, ◌≢◌, refl, sym, ap, arith, append-nil, Option-cases,
  inl, inr, Bool-cases, ◌∙◌, length, length-append,
}
use mpd_virt_macos.Text.{Text, byte_len}
use mpd_virt_macos.Fs.{FilePath, IoError, Node, file, directory, Nodes, Fs, find, is_under, prune}
use mpd_virt_macos.Fs.Laws.{SameAt, find-put, find-prune, is_under-append, is_under_ne}
use mpd_virt_macos.Fs.Files.{behind, placed, relocate, take_place, rename, remove, zeros, truncate}

behind-append : (p r rest : FilePath) → behind p r ≡ some rest → r ≡ p ++ rest
unfolding behind
behind-append [] r rest h = cc
behind-append (a ∷ p) [] rest h = cc
behind-append (a ∷ p) (b ∷ r) rest h = elim (Bool-cases (a == b)) [
  | inl e ↦
      let same : a ≡ b = ==_eq a b e in
      let tail : r ≡ p ++ rest = behind-append p r rest (rw e at h) in rw (same, tail) refl
  | inr e ↦ absurd (never (rw e at h))
]
  where
    never : ◌≡◌ {A = Option FilePath} none (some rest) → ⊥
    never k = cc

behind_self : (p : FilePath) → behind p p ≡ some []
unfolding behind
behind_self [] = refl
behind_self (a ∷ p) = rw (==_self a) (behind_self p)

pub under_append : (q rest r : FilePath) → is_under q r ≡ false → r ≢ q ++ rest
under_append q rest r h e =
    let above : is_under q r ≡ true = rw e (is_under-append q rest) in ground (arith, above, h)

find-relocate_apart :
    (r p q : FilePath) (ns : Nodes)
    → is_under p r ≡ false
    → is_under q r ≡ false
    → find r (relocate p q ns) ≡ find r ns
unfolding relocate find
find-relocate_apart r p q [] hp hq = refl
find-relocate_apart r p q ((s, n) ∷ ns) hp hq = elim (Option-cases (behind p s)) [
  | inl e ↦ rw (e, find-relocate_apart r p q ns hp hq) refl
  | inr (rest, e) ↦
      rw
        (
          e,
          find-relocate_apart r p q ns hp hq,
          ==_ne r (q ++ rest) (under_append q rest r hq),
          ==_ne r s (λ k. under_append p rest r hp (k ∙ behind-append p s rest e)),
        )
        refl
]

longer : (q : FilePath) (a : Text) (rest : FilePath) → q ≢ q ++ a ∷ rest
longer q a rest e = absurd (never (ap length e))
  where
    never : length q ≡ length (q ++ a ∷ rest) → ⊥
    never k = omega (arith, length-append q (a ∷ rest))

-- Behind the removal of all below `q`, what was at `p` comes to lie at `q`.
find-relocate :
    (p q : FilePath) (ns : Nodes)
    → is_under q p ≡ false
    → find q (relocate p q (prune q ns)) ≡ find p ns
unfolding relocate prune find
find-relocate p q [] h = refl
find-relocate p q ((s, n) ∷ ns) h = elim (Bool-cases (is_under q s)) [
  | inl e ↦
      rw (e, find-relocate p q ns h, ==_ne p s (λ k. ground (arith, h, e, ap (is_under q) k))) refl
  | inr e ↦ rw e (kept (find-relocate p q ns h) e (behind p s) refl)
]
  where
    kept :
        find q (relocate p q (prune q ns)) ≡ find p ns
        → is_under q s ≡ false
        → (o : Option FilePath) → behind p s ≡ o
        → (if q == placed q s (behind p s) then some n else find q (relocate p q (prune q ns)))
          ≡ (if p == s then some n else find p ns)
    kept ih e none k =
        rw
          (
            k,
            ih,
            ==_ne q s (is_under_ne q s e),
            ==_ne p s (λ same. never (sym (behind_self p) ∙ (ap (behind p) same ∙ k))),
          )
          refl
      where
        never : ◌≡◌ {A = Option FilePath} (some []) none → ⊥
        never x = cc
    kept ih e (some []) k =
        let same : s ≡ p = behind-append p s [] k ∙ append-nil p in
        rw (k, same, append-nil q, ==_self q, ==_self p) refl
    kept ih e (some (a ∷ rest)) k =
        rw
          (
            k,
            ih,
            ==_ne q (q ++ a ∷ rest) (longer q a rest),
            ==_ne p s (λ same. longer p a rest (same ∙ behind-append p s (a ∷ rest) k)),
          )
          refl

pub remove-SameAt : (q p : FilePath) (fs : Fs) → is_under p q ≡ false → SameAt q fs (remove p fs).0
unfolding remove
remove-SameAt q p fs h = ground (arith, find-prune q p fs.nodes)

-- A rename changes nothing but below the two paths.
pub rename-SameAt :
    (r p q : FilePath) (fs : Fs)
    → is_under p r ≡ false
    → is_under q r ≡ false
    → SameAt r fs (rename p q fs).0
unfolding rename take_place
rename-SameAt r p q fs hp hq =
    ground (arith, find-relocate_apart r p q (prune q fs.nodes) hp hq, find-prune r q fs.nodes)

-- A rename that succeeds has found something, and puts it at the new path.
pub rename_ok :
    (p q : FilePath) (fs : Fs)
    → p ≢ q
    → is_under q p ≡ false
    → (rename p q fs).1 ≡ ok tt
    → (n : Node) × (find p fs.nodes ≡ some n) × (find q (rename p q fs).0.nodes ≡ some n)
unfolding rename take_place
rename_ok p q fs ne h ok_all = ground (arith, find-relocate p q fs.nodes h, ==_ne p q ne)

pub byte_len-zeros : (n : ℕ) → byte_len (zeros n) ≡ n
unfolding zeros byte_len
byte_len-zeros zero = refl
byte_len-zeros (suc n) = omega (arith, byte_len-zeros n)

path_iff : (p q : FilePath) → ((p == q) ≡ true → p ≡ q) × (p ≡ q → (p == q) ≡ true)
path_iff p q = (==_eq p q, λ e. rw e (==_self q))

pub truncate-SameAt : (q p : FilePath) (n : ℕ) (fs : Fs) → q ≢ p → SameAt q fs (truncate p n fs).0
unfolding truncate
truncate-SameAt q p n fs h = elim (Option-cases (find p fs.nodes)) [
  | inl e ↦ ground (arith, e)
  | inr (node, e) ↦ by_node node e
]
  where
    by_node : (node : Node) → find p fs.nodes ≡ some node → SameAt q fs (truncate p n fs).0
    by_node directory e = ground (arith, e)
    by_node (file t) e =
        ground (arith, e, find-put q p (file (t ++ zeros (n - byte_len t))) fs.nodes, path_iff q p)

-- A file that is grown keeps its bytes, and zeros follow them.
pub truncate_ok :
    (p : FilePath) (n : ℕ) (fs : Fs) (t : Text)
    → find p fs.nodes ≡ some (file t)
    → (truncate p n fs).1 ≡ ok tt
    → find p (truncate p n fs).0.nodes ≡ some (file (t ++ zeros (n - byte_len t)))
unfolding truncate
truncate_ok p n fs t e h =
    ground (arith, e, find-put p p (file (t ++ zeros (n - byte_len t))) fs.nodes, path_iff p p)

-- A directory has no size that could be set.
pub truncate_directory :
    (p : FilePath) (n : ℕ) (fs : Fs)
    → find p fs.nodes ≡ some directory
    → (truncate p n fs).1 ≢ ok tt
unfolding truncate
truncate_directory p n fs e h = ground (arith, e, h)

-- A rename that fails has changed nothing.
pub rename_err :
    (p q : FilePath) (fs : Fs) {e : IoError} → (rename p q fs).1 ≡ err e → (rename p q fs).0 ≡ fs
unfolding rename take_place
rename_err p q fs h = ground arith
