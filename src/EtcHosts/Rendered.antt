-- ===== src/EtcHosts/Rendered.antt =====
-- The hosts file that the program renders maps every entry.
use mpd_virt_macos.Base.{
  ℕ, true, false, ◌||◌, List, [], ◌∷◌, ◌++◌, any, ◌==◌, list_eq, nat_eq, ==_self, ==_ne, ◌≡◌, ◌≢◌,
  ◌∙◌, refl, ap, arith, All, All-append, Lacks, append-nil, append_assoc,
}
use mpd_virt_macos.Text.{
  Text, codes, is_space, trim_space, has_prefix, split, fields, fields_from, close, join,
}
use mpd_virt_macos.Text.Lines.{split-append, split-join}
use mpd_virt_macos.Text.Trim.{IsSolid, trim_right-append, trim_right-IsSolid}
use mpd_virt_macos.Text.Search.{Lacks-test}
use mpd_virt_macos.Env.Laws.{IsSolid-IsValue}
use mpd_virt_macos.Server.{Entry, host, host_line, host_lines, hosts_text, service_host}
use mpd_virt_macos.Server.Labels.{IsLabel, service_host-IsSolid}
use mpd_virt_macos.EtcHosts.{member, maps_line, hosts_has, missing_entries}
use mpd_virt_macos.Base.{All-map, any-append}
use mpd_virt_macos.Text.{trim_right}
use mpd_virt_macos.Text.Trim.{trim_space-cons, append-ne-nil}

-- An entry whose address is one field of a hosts file, and no comment.
pub record IsHost (e : Entry) : Type 0 where
  pub label : IsLabel e.name
  pub ip_solid : IsSolid e.ip
  pub ip_ne_nil : e.ip ≢ []
  pub no_comment : Lacks b'#' e.ip

close_ne : (s : Text) (fs : List Text) → s ≢ [] → close s fs ≡ s ∷ fs
close_ne [] fs h = absurd (h refl)
close_ne (c ∷ s) fs h = refl

-- A field ends at white space.
fields_from-space :
    (cur s : Text) (c : ℕ) (t : Text)
    → IsSolid s
    → is_space c ≡ true
    → fields_from cur (s ++ c ∷ t) ≡ close (cur ++ s) (fields_from [] t)
unfolding fields_from
fields_from-space cur [] c t h k = rw (k, append-nil)
fields_from-space cur (d ∷ s) c t h k =
    rw h.0 (fields_from-space (cur ++ d ∷ []) s c t h.1 k ∙ rw (append_assoc cur (d ∷ []) s))

fields_from_last : (cur s : Text) → IsSolid s → fields_from cur s ≡ close (cur ++ s) []
unfolding fields_from
fields_from_last cur [] h = rw append-nil
fields_from_last cur (d ∷ s) h =
    rw h.0 (fields_from_last (cur ++ d ∷ []) s h.1 ∙ rw (append_assoc cur (d ∷ []) s))

host_ne_nil : (e : Entry) → host e ≢ []
unfolding host service_host
host_ne_nil e = append-ne-nil e.name (codes ".mpd.test") (λ x. cc)

module _ (e : Entry) (h : IsHost e) where
  host-IsSolid : IsSolid (host e)
  unfolding host
  host-IsSolid = service_host-IsSolid e.name h.label

  tab_trimmed : trim_right (b'\t' ∷ host e) ≡ b'\t' ∷ host e
  tab_trimmed =
      let solid = trim_right-IsSolid (host e) host-IsSolid in
      trim_right-append (b'\t' ∷ []) (host e) (rw solid (host_ne_nil e)) ∙ ap (◌∷◌ b'\t') solid

  host_line_trimmed :
      (ip : Text) → IsSolid ip → ip ≢ [] → trim_space (ip ++ b'\t' ∷ host e) ≡ ip ++ b'\t' ∷ host e
  host_line_trimmed [] s n = absurd (n refl)
  host_line_trimmed (c ∷ ip) s n =
      trim_space-cons c (ip ++ b'\t' ∷ host e) s.0
      ∙ ap (◌∷◌ c) (
          trim_right-append ip (b'\t' ∷ host e) (rw tab_trimmed (λ x. cc))
          ∙ ap (◌++◌ ip) tab_trimmed)

  fields-host_line : fields (host_line e) ≡ e.ip ∷ host e ∷ []
  unfolding fields
  fields-host_line =
      fields_from-space [] e.ip b'\t' (host e) h.ip_solid (unfold is_space in refl)
      ∙ rw (fields_from_last [] (host e) host-IsSolid, close_ne (host e) [] (host_ne_nil e))
          (close_ne e.ip _ h.ip_ne_nil)

  not_comment :
      (ip rest : Text)
      → Lacks b'#' ip
      → ip ≢ []
      → ((ip ++ rest) == [] || has_prefix (codes "#") (ip ++ rest)) ≡ false
  unfolding has_prefix
  not_comment [] rest k n = absurd (n refl)
  not_comment (c ∷ ip) rest k n =
      ground (arith, ==_ne {A = Text} (c ∷ (ip ++ rest)) [] (λ x. cc), k.0)

  maps_line-host_line : maps_line e (host_line e) ≡ true
  unfolding maps_line member
  maps_line-host_line = rw (
    host_line_trimmed e.ip h.ip_solid h.ip_ne_nil,
    not_comment e.ip (b'\t' ∷ host e) h.no_comment h.ip_ne_nil,
    fields-host_line,
    ==_self e.ip,
    ==_self (host e),
  )

  host_line_one_line : Lacks b'\n' (host_line e)
  host_line_one_line =
      All-append (λ c. c ≢ b'\n') e.ip (b'\t' ∷ host e) (IsSolid-IsValue e.ip h.ip_solid).one_line
        ((λ x. cc), (IsSolid-IsValue (host e) host-IsSolid).one_line)

any-host_lines :
    (es : List Entry) → All IsHost es → All (λ e. any (maps_line e) (host_lines es) ≡ true) es
any-host_lines [] h = tt
any-host_lines (e ∷ es) h = (
  rw (maps_line-host_line e h.0),
  All-map (λ f. any (maps_line f) (host_lines es) ≡ true)
      (λ f. any (maps_line f) (host_line e ∷ host_lines es) ≡ true) (λ f k. ground arith) es
      (any-host_lines es h.1),
)

host_lines_one_line : (es : List Entry) → All IsHost es → All (Lacks b'\n') (host_lines es)
host_lines_one_line [] h = tt
host_lines_one_line (e ∷ es) h = (host_line_one_line e h.0, host_lines_one_line es h.1)

abbrev file_lines : List Entry → List Text
file_lines es =
    codes "# mpd-virt LAN service records."
    ∷ codes "# Generated by `mpd-virt server`; edits are overwritten."
    ∷ host_lines es

file_lines_one_line : (es : List Entry) → All IsHost es → All (Lacks b'\n') (file_lines es)
file_lines_one_line es h = (
  Lacks-test b'\n' (codes "# mpd-virt LAN service records.") refl,
  (
    Lacks-test b'\n' (codes "# Generated by `mpd-virt server`; edits are overwritten.") refl,
    host_lines_one_line es h,
  ),
)

split-pasted :
    (before after : Text) (es : List Entry)
    → All IsHost es
    → split b'\n' (before ++ b'\n' ∷ (hosts_text es ++ after))
      ≡ split b'\n' before ++ (file_lines es ++ split b'\n' after)
unfolding hosts_text
split-pasted before after es h = rw (
  split-append b'\n' before ((join (codes "\n") (file_lines es) ++ codes "\n") ++ after),
  append_assoc (join (codes "\n") (file_lines es)) (codes "\n") after,
  split-append b'\n' (join (codes "\n") (file_lines es)) after,
  split-join b'\n' (file_lines es) (λ x. cc) (file_lines_one_line es h),
)

hosts_has_line :
    (before after : Text) (es : List Entry) (e : Entry)
    → All IsHost es
    → any (maps_line e) (host_lines es) ≡ true
    → hosts_has (before ++ b'\n' ∷ (hosts_text es ++ after)) e ≡ true
unfolding hosts_has
hosts_has_line before after es e h k = rw (split-pasted before after es h) (
    ground (
      arith,
      k,
      any-append (maps_line e) (split b'\n' before) (file_lines es ++ split b'\n' after),
      any-append (maps_line e) (file_lines es) (split b'\n' after),
    ))

hosts_has-pasted :
    (before after : Text) (es : List Entry)
    → All IsHost es
    → All (λ e. hosts_has (before ++ b'\n' ∷ (hosts_text es ++ after)) e ≡ true) es
hosts_has-pasted before after es h =
    All-map (λ e. any (maps_line e) (host_lines es) ≡ true)
      (λ e. hosts_has (before ++ b'\n' ∷ (hosts_text es ++ after)) e ≡ true)
      (λ e k. hosts_has_line before after es e h k) es (any-host_lines es h)

missing_entries_none :
    (live : Text) (fs : List Entry)
    → All (λ e. hosts_has live e ≡ true) fs
    → missing_entries live fs ≡ []
unfolding missing_entries
missing_entries_none live [] k = refl
missing_entries_none live (e ∷ fs) k = rw (k.0, missing_entries_none live fs k.1)

-- For servers whose names are labels and whose addresses are not empty, without white space or
-- `#`: once the rendered hosts text is pasted behind a newline of a hosts file, no entry is
-- missing from the file.
pub missing_entries-pasted :
    (before after : Text) (es : List Entry)
    → All IsHost es
    → missing_entries (before ++ b'\n' ∷ (hosts_text es ++ after)) es ≡ []
missing_entries-pasted before after es h =
    missing_entries_none _ es (hosts_has-pasted before after es h)
