-- ===== src/Registry/RoundTrip.antt =====
-- What `Save` writes, `Load` reads back.
use mpd_virt_macos.Base.{
  ◌<◌, List, [], ◌∷◌, ◌++◌, some, list_eq, nat_eq, list_beq, ==_ne, ok, ◌≡◌, ◌≢◌, ◌∙◌, refl, arith,
  append_assoc, All, All-append, Lacks,
}
use mpd_virt_macos.Text.{Text, codes, byte_len}
use mpd_virt_macos.Text.Search.{Lacks-test}
use mpd_virt_macos.Text.Lines.{unlines, raw_lines-unlines}
use mpd_virt_macos.Fs.{FilePath, Fs, mkdir_all, write_file}
use mpd_virt_macos.Fs.Laws.{>>_ok, write_file-Holds, read_file-Holds}
use mpd_virt_macos.Vmid.{name, pad}
use mpd_virt_macos.Vmid.Bounds.{IsBoxId, pad-IsStorable, name-IsStorable}
use mpd_virt_macos.Env.{Bindings, binding, scan_env, scan_lines}
use mpd_virt_macos.Env.Laws.{
  IsStorable, scan_lines-line_of, scan_lines_comment, line_of, key_test, line_of-Lacks,
  scan_lines-nil, byte_len-append,
}
use mpd_virt_macos.Paths.{vm_dir, vm_env}
use mpd_virt_macos.Registry.{Entry, body, save, load, entry_of}

-- The lines of an env file.
abbrev lines_of : Entry → List Text
lines_of e =
    (codes "# mpd-virt registry entry for " ++ (name e.id ++ codes "."))
    ∷ codes "# Source of truth for takeover. Edit at your own risk."
    ∷ line_of (codes "MPD_VM_OCTET") (pad e.id)
    ∷ line_of (codes "MPD_VM_NAME") (name e.id)
    ∷ line_of (codes "MPD_VM_BACKEND") e.backend
    ∷ line_of (codes "MPD_VM_IP") e.ip
    ∷ line_of (codes "MPD_VM_USER") e.user
    ∷ []

body-unlines : (e : Entry) → body e ≡ unlines (lines_of e)
unfolding body unlines
body-unlines e = simp append_assoc

pub record IsEntry (e : Entry) : Type 0 where
  pub box_id : IsBoxId e.id
  pub ip_storable : IsStorable e.ip
  pub user_storable : IsStorable e.user
  pub backend_storable : IsStorable e.backend
  pub ip_ne_nil : e.ip ≢ []
  pub user_ne_nil : e.user ≢ []

abbrev bindings_of : Entry → Bindings
bindings_of e =
    (codes "MPD_VM_USER", e.user)
    ∷ (codes "MPD_VM_IP", e.ip)
    ∷ (codes "MPD_VM_BACKEND", e.backend)
    ∷ (codes "MPD_VM_NAME", name e.id)
    ∷ (codes "MPD_VM_OCTET", pad e.id)
    ∷ []

entry_of-bindings_of : (e : Entry) → e.ip ≢ [] → e.user ≢ [] → entry_of e.id (bindings_of e) ≡ ok e
unfolding entry_of binding list_beq
entry_of-bindings_of e hi hu = ground (arith, ==_ne e.ip [] hi, ==_ne e.user [] hu)

short_line : (k v : Text) → byte_len k < 100 → IsStorable v → byte_len (k ++ v) < 65536
short_line k v h s = omega (arith, byte_len-append k v, s.short)

module _ (e : Entry) (h : IsEntry e) where
  header_short :
      byte_len (codes "# mpd-virt registry entry for " ++ (name e.id ++ codes ".")) < 65536
  header_short =
      let first : byte_len (codes "# mpd-virt registry entry for ") ≡ 30 =
        unfold byte_len in refl in
      let last : byte_len (codes ".") ≡ 1 = unfold byte_len in refl in
      omega (
        arith,
        byte_len-append (codes "# mpd-virt registry entry for ") (name e.id ++ codes "."),
        byte_len-append (name e.id) (codes "."),
        first,
        last,
        (name-IsStorable e.id h.box_id).short,
      )

  scan_lines-lines_of : scan_lines (lines_of e) [] ≡ some (bindings_of e)
  unfolding key_test
  scan_lines-lines_of =
      scan_lines_comment (codes " mpd-virt registry entry for " ++ (name e.id ++ codes ".")) _ []
        header_short
      ∙ scan_lines_comment (codes " Source of truth for takeover. Edit at your own risk.") _ []
          (unfold byte_len in omega arith)
      ∙ scan_lines-line_of (codes "MPD_VM_OCTET") (pad e.id) _ _ refl (pad-IsStorable e.id h.box_id)
      ∙ scan_lines-line_of (codes "MPD_VM_NAME") (name e.id) _ _ refl
          (name-IsStorable e.id h.box_id)
      ∙ scan_lines-line_of (codes "MPD_VM_BACKEND") e.backend _ _ refl h.backend_storable
      ∙ scan_lines-line_of (codes "MPD_VM_IP") e.ip _ _ refl h.ip_storable
      ∙ scan_lines-line_of (codes "MPD_VM_USER") e.user _ _ refl h.user_storable
      ∙ scan_lines-nil (bindings_of e)

  no_newlines : All (Lacks b'\n') (lines_of e)
  unfolding key_test
  no_newlines = (
    All-append (λ c. c ≢ b'\n') (codes "# mpd-virt registry entry for ") (name e.id ++ codes ".")
        (Lacks-test b'\n' (codes "# mpd-virt registry entry for ") refl)
        (All-append (λ c. c ≢ b'\n') (name e.id) (codes ".")
          (name-IsStorable e.id h.box_id).value.one_line (Lacks-test b'\n' (codes ".") refl)),
    (
      Lacks-test b'\n' (codes "# Source of truth for takeover. Edit at your own risk.") refl,
      (
        line_of-Lacks (codes "MPD_VM_OCTET") (pad e.id) refl (pad-IsStorable e.id h.box_id),
        (
          line_of-Lacks (codes "MPD_VM_NAME") (name e.id) refl (name-IsStorable e.id h.box_id),
          (
            line_of-Lacks (codes "MPD_VM_BACKEND") e.backend refl h.backend_storable,
            (
              line_of-Lacks (codes "MPD_VM_IP") e.ip refl h.ip_storable,
              (line_of-Lacks (codes "MPD_VM_USER") e.user refl h.user_storable, tt),
            ),
          ),
        ),
      ),
    ),
  )

  scan_env-body : scan_env (body e) ≡ some (bindings_of e)
  unfolding scan_env
  scan_env-body =
      rw (body-unlines e, raw_lines-unlines (lines_of e) no_newlines) scan_lines-lines_of

  -- For an entry with a box id from 1 to 254 and values that a line can hold (trimmed, on one
  -- line, below 65000 bytes), of which address and user are not empty: after a successful `Save`,
  -- `Load` of the id returns the entry.
  pub load-save :
      (root : FilePath) (fs : Fs)
      → (save root e fs).1 ≡ ok tt
      → load root e.id (save root e fs).0 ≡ ok e
  unfolding save load
  load-save root fs saved =
      let made = mkdir_all (vm_dir root e.id) in
      let written = write_file (vm_env root e.id) (body e) in
      let (step, _, wrote) = >>_ok made written fs saved in
      let held = write_file-Holds (vm_env root e.id) (body e) (made fs).0 wrote in
      rw step (
        rw
          (
            (read_file-Holds (vm_env root e.id) (written (made fs).0).0 (body e)).1 held,
            scan_env-body,
          )
          (entry_of-bindings_of e h.ip_ne_nil h.user_ne_nil))
