-- ===== src/Tests/Ssh.antt =====
-- The ssh config, with a block of the box 42 between two lines of the user's.
use mpd_virt_macos.Base.{false, true, [], ◌∷◌, ◌++◌, ok, ◌≡◌, refl, arith, list_beq}
use mpd_virt_macos.Text.{Text, codes, split, contains, has_prefix, is_space, join}
use mpd_virt_macos.Text.Decimal.{pad3}
use mpd_virt_macos.Fs.{
  FilePath, Fs, file, directory, find, put, stat, blocked_from, mkdir_all, write_file, read_file,
  put_dirs, dir_of,
}
use mpd_virt_macos.Vmid.{pad, name}
use mpd_virt_macos.Sshconfig.{
  begin_marker, end_marker, outside_lines, strip_block, rewrite, ensure_file, write, strip,
  contains_block,
}
use mpd_virt_macos.Sshconfig.Tidy.{solid_lines}
use mpd_virt_macos.Sshconfig.Kept.{strip_block_idem, solid_lines-strip_block}
use mpd_virt_macos.Sshconfig.Rewrite.{IsPlain, strip_block-rewrite}
use mpd_virt_macos.Sshconfig.File.{contains_block-strip, write_lem, write_twice}

abbrev newline : Text
newline = b'\n' ∷ []

abbrev current_text : Text
current_text =
    codes "Host a"
    ++ (newline
        ++ (codes "# >>> mpd-042 (managed by mpd-virt) >>>"
            ++ (newline
                ++ (codes "Host mpd-042"
                    ++ (newline ++ (codes "# <<< mpd-042 <<<" ++ (newline ++ codes "Host b")))))))

abbrev config : FilePath
config = codes "ssh" ∷ codes "config" ∷ []

abbrev ssh_store : Fs
ssh_store = record {
  nodes = (codes "ssh" ∷ [], directory) ∷ (config, file current_text) ∷ [];
  denied = λ p. false;
}

abbrev address : Text
address = codes "1.2"

abbrev moved : Text
moved = codes "1.3"

abbrev user : Text
user = codes "ann"

address-IsPlain : IsPlain address
address-IsPlain = ground arith

user-IsPlain : IsPlain user
user-IsPlain = ground arith

strip_block-rewrite_example :
    strip_block (rewrite current_text 42 address user) 42 ≡ strip_block current_text 42
strip_block-rewrite_example =
    strip_block-rewrite 42 (omega arith, omega arith) address user address-IsPlain user-IsPlain
      current_text

strip_block_idem_example :
    strip_block (strip_block current_text 42) 42 ≡ strip_block current_text 42
strip_block_idem_example = strip_block_idem 42 current_text

solid_lines-strip_block_example :
    solid_lines (split b'\n' (strip_block current_text 42))
    ≡ solid_lines (codes "Host a" ∷ []) ++ solid_lines (codes "Host b" ∷ [])
solid_lines-strip_block_example =
    solid_lines-strip_block 42 (codes "Host a" ∷ []) (codes "Host mpd-042" ∷ [])
      (codes "Host b" ∷ []) (codes "# >>> mpd-042 (managed by mpd-virt) >>>")
      (codes "# <<< mpd-042 <<<") current_text (unfold split in refl)
      (unfold begin_marker end_marker contains has_prefix name pad pad3 in (refl, tt))
      (unfold begin_marker end_marker contains has_prefix name pad pad3 in refl)
      (unfold begin_marker end_marker contains has_prefix name pad pad3 in (refl, tt))
      (unfold begin_marker end_marker contains has_prefix name pad pad3 in refl)
      (unfold begin_marker end_marker contains has_prefix name pad pad3 in (refl, tt))

stripped_file : (strip config 42 ssh_store).1 ≡ ok tt
unfolding strip join split name strip_block outside_lines list_beq begin_marker end_marker contains
    has_prefix is_space pad pad3 read_file stat find put write_file dir_of
stripped_file = refl

contains_block-strip_example : contains_block config 42 (strip config 42 ssh_store).0 ≡ false
contains_block-strip_example =
    contains_block-strip config 42 ssh_store (omega arith, omega arith) stripped_file

written : (write config 42 address user ssh_store).1 ≡ ok tt
unfolding write ensure_file list_beq read_file stat find put write_file dir_of mkdir_all put_dirs
    blocked_from
written = refl

write_lem_example :
    (current : Text) × (read_file config (ensure_file config ssh_store).0 ≡ ok current)
    × (read_file config (write config 42 address user ssh_store).0
        ≡ ok (rewrite current 42 address user))
    × (contains_block config 42 (write config 42 address user ssh_store).0 ≡ true)
write_lem_example = write_lem config 42 address user ssh_store written

written_again : (write config 42 moved user (write config 42 address user ssh_store).0).1 ≡ ok tt
unfolding write ensure_file list_beq read_file stat find put write_file dir_of mkdir_all put_dirs
    blocked_from
written_again = refl

write_twice_example :
    (current : Text) × (read_file config (ensure_file config ssh_store).0 ≡ ok current)
    × (read_file config (write config 42 moved user (write config 42 address user ssh_store).0).0
        ≡ ok (rewrite current 42 moved user))
write_twice_example =
    write_twice config 42 address user moved user ssh_store (λ e. cc) (omega arith, omega arith)
      address-IsPlain user-IsPlain written written_again

-- The block goes, and the lines around it stay.
strip_block_value : strip_block current_text 42 ≡ codes "Host a" ++ (newline ++ codes "Host b")
unfolding strip_block outside_lines list_beq begin_marker end_marker contains has_prefix is_space
    pad pad3 name split join
strip_block_value = refl
