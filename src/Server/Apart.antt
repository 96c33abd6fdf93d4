-- ===== src/Server/Apart.antt =====
-- `WriteHostsFile` on the registry.
use mpd_virt_macos.Base.{
  ◌<◌, [], ◌∷◌, ok, Result-cases, ◌≡◌, ◌≢◌, refl, arith, append_assoc, length, length-append, inl,
  inr,
}
use mpd_virt_macos.Text.{Text, codes}
use mpd_virt_macos.Fs.{FilePath, Fs, stat, read_file, write_file, mkdir_all, reads, ◌>>=◌}
use mpd_virt_macos.Fs.Laws.{SameAt, >>-SameAt, mkdir_all-SameAt, write_file-SameAt}
use mpd_virt_macos.Paths.{conf, lan_hosts, servers}
use mpd_virt_macos.Registry.Frame.{path_apart}
use mpd_virt_macos.Server.{Entry, env_file, load, hosts_body, write_hosts_file}

module _ (root : FilePath) (name : Text) where
  env_deeper : length (conf root) < length (env_file root name)
  unfolding conf env_file servers
  env_deeper = rw (append_assoc root (codes "servers" ∷ []) (name ∷ codes "env" ∷ [])) omega (
    arith,
    length-append root (codes "conf" ∷ []),
    length-append root (codes "servers" ∷ name ∷ codes "env" ∷ []),
  )

  env_apart : env_file root name ≢ lan_hosts root
  unfolding env_file lan_hosts servers
  env_apart = rw (append_assoc root (codes "servers" ∷ []) (name ∷ codes "env" ∷ [])) (
      path_apart root (name ∷ codes "env" ∷ []) (codes "lan-hosts" ∷ []) (codes "servers")
        (codes "conf") (λ e. cc))

  body_SameAt :
      (fs : Fs)
      → SameAt
          (env_file root name)
          fs
          ((reads (hosts_body root) >>= λ text. write_file (lan_hosts root) text) fs).0
  body_SameAt fs = elim (Result-cases (hosts_body root fs)) [
    | inl (t, e) ↦ rw e (write_file-SameAt (env_file root name) (lan_hosts root) t fs env_apart)
    | inr (x, e) ↦ rw e (refl, refl)
  ]

  -- `WriteHostsFile`, whether it succeeds or not, does not change the env file of a server.
  pub hosts_SameAt : (fs : Fs) → SameAt (env_file root name) fs (write_hosts_file root fs).0
  unfolding write_hosts_file
  hosts_SameAt fs =
      >>-SameAt (mkdir_all (conf root))
        (reads (hosts_body root) >>= λ text. write_file (lan_hosts root) text) fs
        (env_file root name) (mkdir_all-SameAt (env_file root name) (conf root) fs env_deeper)
        (body_SameAt (mkdir_all (conf root) fs).0)

  -- What `Load` returns comes from the env file alone.
  pub load-SameAt :
      (fs fs' : Fs)
      → SameAt (env_file root name) fs fs'
      → (e : Entry) → load root name fs ≡ ok e
      → load root name fs' ≡ ok e
  unfolding load read_file stat
  load-SameAt fs fs' h e l = ground arith
