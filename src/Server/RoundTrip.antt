-- ===== src/Server/RoundTrip.antt =====
-- What `Save` writes for a LAN server, `Load` reads back.
use mpd_virt_macos.Base.{
  ◌<◌, List, [], ◌∷◌, ◌++◌, some, list_eq, nat_eq, list_beq, ==_ne, ok, ◌≡◌, ◌≢◌, ◌∙◌, refl, arith,
  append_assoc, All, All-append, Lacks,
}
use mpd_virt_macos.Text.{Text, codes, byte_len}
use mpd_virt_macos.Text.Lines.{unlines, raw_lines-unlines}
use mpd_virt_macos.Text.Search.{Lacks-test}
use mpd_virt_macos.Fs.{FilePath, Fs, mkdir_all, write_file}
use mpd_virt_macos.Fs.Laws.{read_file-write_file, >>_ok}
use mpd_virt_macos.Env.{Bindings, binding, scan_env, scan_lines}
use mpd_virt_macos.Env.Laws.{
  IsStorable, IsSolid-IsValue, line_of, line_of-Lacks, key_test, scan_lines-line_of,
  scan_lines_comment, scan_lines-nil, byte_len-append,
}
use mpd_virt_macos.Server.{Entry, host, dir, env_file, body, save, load, entry_of}
use mpd_virt_macos.Server.Labels.{IsLabel, IsLabel-IsSolid}

abbrev lines_of : Entry → List Text
lines_of e =
    (codes "# mpd-virt registry entry for " ++ (host e ++ codes "."))
    ∷ codes "# Managed by `mpd-virt server add`. Edit at your own risk."
    ∷ line_of (codes "MPD_SERVER_NAME") e.name
    ∷ line_of (codes "MPD_SERVER_IP") e.ip
    ∷ []

body-unlines : (e : Entry) → body e ≡ unlines (lines_of e)
unfolding body unlines
body-unlines e = simp append_assoc

-- An entry that `server add` may register: an accepted name, and an address that a line can hold.
pub record IsEntry (e : Entry) : Type 0 where
  pub label : IsLabel e.name
  pub short_name : byte_len e.name < 60000
  pub ip_storable : IsStorable e.ip
  pub ip_ne_nil : e.ip ≢ []

abbrev bindings_of : Entry → Bindings
bindings_of e = (codes "MPD_SERVER_IP", e.ip) ∷ (codes "MPD_SERVER_NAME", e.name) ∷ []

entry_of-bindings_of : (e : Entry) → e.ip ≢ [] → e.name ≢ [] → entry_of (bindings_of e) ≡ ok e
unfolding entry_of binding list_beq
entry_of-bindings_of e hi hn = ground (arith, ==_ne e.ip [] hi, ==_ne e.name [] hn)

module _ (e : Entry) (h : IsEntry e) where
  name-IsStorable : IsStorable e.name
  name-IsStorable = record {
    value = IsSolid-IsValue e.name (IsLabel-IsSolid e.name h.label);
    short = omega (arith, h.short_name);
  }

  header_short : byte_len (codes "# mpd-virt registry entry for " ++ (host e ++ codes ".")) < 65536
  unfolding host
  header_short =
      let first : byte_len (codes "# mpd-virt registry entry for ") ≡ 30 =
        unfold byte_len in refl in
      let domain : byte_len (codes ".mpd.test") ≡ 9 = unfold byte_len in refl in
      let last : byte_len (codes ".") ≡ 1 = unfold byte_len in refl in
      omega (
        arith,
        byte_len-append (codes "# mpd-virt registry entry for ") (host e ++ codes "."),
        byte_len-append (host e) (codes "."),
        byte_len-append e.name (codes ".mpd.test"),
        first,
        last,
        domain,
        h.short_name,
      )

  scan_lines-lines_of : scan_lines (lines_of e) [] ≡ some (bindings_of e)
  unfolding key_test
  scan_lines-lines_of =
      scan_lines_comment (codes " mpd-virt registry entry for " ++ (host e ++ codes ".")) _ []
        header_short
      ∙ scan_lines_comment (codes " Managed by `mpd-virt server add`. Edit at your own risk.") _ []
          (unfold byte_len in omega arith)
      ∙ scan_lines-line_of (codes "MPD_SERVER_NAME") e.name _ _ refl name-IsStorable
      ∙ scan_lines-line_of (codes "MPD_SERVER_IP") e.ip _ _ refl h.ip_storable
      ∙ scan_lines-nil (bindings_of e)

  host_one_line : Lacks b'\n' (host e)
  unfolding host
  host_one_line =
      All-append (λ c. c ≢ b'\n') e.name (codes ".mpd.test") name-IsStorable.value.one_line
        (Lacks-test b'\n' (codes ".mpd.test") refl)

  no_newlines : All (Lacks b'\n') (lines_of e)
  unfolding key_test
  no_newlines = (
    All-append (λ c. c ≢ b'\n') (codes "# mpd-virt registry entry for ") (host e ++ codes ".")
        (Lacks-test b'\n' (codes "# mpd-virt registry entry for ") refl)
        (All-append (λ c. c ≢ b'\n') (host e) (codes ".") host_one_line
          (Lacks-test b'\n' (codes ".") refl)),
    (
      Lacks-test b'\n' (codes "# Managed by `mpd-virt server add`. Edit at your own risk.") refl,
      (
        line_of-Lacks (codes "MPD_SERVER_NAME") e.name refl name-IsStorable,
        (line_of-Lacks (codes "MPD_SERVER_IP") e.ip refl h.ip_storable, tt),
      ),
    ),
  )

  scan_env-body : scan_env (body e) ≡ some (bindings_of e)
  unfolding scan_env
  scan_env-body =
      rw (body-unlines e, raw_lines-unlines (lines_of e) no_newlines) scan_lines-lines_of

  -- For a LAN server whose name is a label below 60000 bytes and whose address a line can hold
  -- and is not empty: after a successful `Save`, `Load` of the name returns the entry.
  pub load-save_server :
      (root : FilePath) (fs : Fs)
      → (save root e fs).1 ≡ ok tt
      → load root e.name (save root e fs).0 ≡ ok e
  unfolding save load
  load-save_server root fs saved =
      let (step, _, wrote) =
        >>_ok (mkdir_all (dir root e.name)) (write_file (env_file root e.name) (body e)) fs saved in
      rw (step, read_file-write_file (env_file root e.name) (body e) _ wrote, scan_env-body)
        (entry_of-bindings_of e h.ip_ne_nil h.label.not_empty)
