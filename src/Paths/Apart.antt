-- ===== src/Paths/Apart.antt =====
-- Where the state of the boxes, of the servers and of the images lies: apart from the directory of
-- the root CA.
use mpd_virt_macos.Base.{
  ℕ, zero, suc, ◌+◌, ◌/◌, ◌%◌, ◌<◌, [], ◌∷◌, ◌++◌, nat_eq, list_eq, ltb, ◌≢◌, sym, arith,
  append_assoc, subst, Bool-cases, inl, inr,
}
use mpd_virt_macos.Text.{Text, codes}
use mpd_virt_macos.Text.Decimal.{digits, itoa, pad3}
use mpd_virt_macos.Fs.{FilePath}
use mpd_virt_macos.Fs.Apart.{Apart, Apart-sibling}
use mpd_virt_macos.Vmid.{pad}
use mpd_virt_macos.Paths.{ca_root, servers, lan_hosts, utm_staging, vm_dir, vm_env, cloud_images}

-- The text begins below the letters.
abbrev IsLow : Text → Type 0
IsLow [] = ⊥
IsLow (c ∷ s) = c < 97

IsLow-append : (s t : Text) → IsLow s → IsLow (s ++ t)
IsLow-append [] t h = absurd h
IsLow-append (c ∷ s) t h = h

low_digit : (n : ℕ) → b'0' + n % 10 < 97
low_digit n = omega arith

digits-IsLow : (f n c : ℕ) → c < 97 → IsLow (digits f n ++ c ∷ [])
unfolding digits
digits-IsLow zero n c h = h
digits-IsLow (suc f) n c h = elim (Bool-cases (ltb n 10)) [
  | inl e ↦ rw e (ground arith)
  | inr e ↦ rw e (
      IsLow-append (digits f (n / 10) ++ (b'0' + n % 10) ∷ []) (c ∷ [])
        (digits-IsLow f (n / 10) (b'0' + n % 10) (low_digit n)))
]

pad-IsLow : (n : ℕ) → IsLow (pad n)
unfolding pad pad3 itoa
pad-IsLow n = elim (Bool-cases (ltb n 10)) [
  | inl e ↦ rw e (omega arith)
  | inr e ↦ elim (Bool-cases (ltb n 100)) [
    | inl k ↦ rw (e, k) (omega arith)
    | inr k ↦ rw (e, k) (digits-IsLow n (n / 10) (b'0' + n % 10) (low_digit n))
  ]
]

pad-conf : (n : ℕ) → pad n ≢ codes "conf"
pad-conf n e = no_letter (subst IsLow e (pad-IsLow n))
  where
    no_letter : IsLow (codes "conf") → ⊥
    no_letter h = omega arith

-- In the root, but not in `conf`; and in `conf`, but not in the directory of the root CA.
module _ (root : FilePath) where
  outside_conf : (a : Text) (r : FilePath) → a ≢ codes "conf" → Apart (root ++ a ∷ r) (ca_root root)
  unfolding ca_root
  outside_conf a r h = Apart-sibling root r (codes "caroot" ∷ []) a (codes "conf") h

  inside_conf :
      (a : Text) (r : FilePath)
      → a ≢ codes "caroot"
      → Apart (root ++ codes "conf" ∷ a ∷ r) (ca_root root)
  unfolding ca_root
  inside_conf a r h =
      rw
        (
          sym (append_assoc root (codes "conf" ∷ []) (a ∷ r)),
          sym (append_assoc root (codes "conf" ∷ []) (codes "caroot" ∷ [])),
        )
        (Apart-sibling (root ++ codes "conf" ∷ []) r [] a (codes "caroot") h)

  pub vm_dir-Apart : (id : ℕ) → Apart (vm_dir root id) (ca_root root)
  unfolding vm_dir
  vm_dir-Apart id = outside_conf (pad id) [] (pad-conf id)

  pub vm_env-Apart : (id : ℕ) → Apart (vm_env root id) (ca_root root)
  unfolding vm_env
  vm_env-Apart id = outside_conf (pad id) (codes "env" ∷ []) (pad-conf id)

  pub servers-Apart : Apart (servers root) (ca_root root)
  unfolding servers
  servers-Apart = outside_conf (codes "servers") [] (λ e. cc)

  pub lan_hosts-Apart : Apart (lan_hosts root) (ca_root root)
  unfolding lan_hosts
  lan_hosts-Apart = inside_conf (codes "lan-hosts") [] (λ e. cc)

  pub staging-Apart : (name : Text) → Apart (utm_staging root name) (ca_root root)
  unfolding utm_staging
  staging-Apart name = inside_conf (codes "utm-staging") (name ∷ []) (λ e. cc)

  pub images-Apart : Apart (cloud_images root) (ca_root root)
  unfolding cloud_images
  images-Apart = inside_conf (codes "cloud-images") [] (λ e. cc)
