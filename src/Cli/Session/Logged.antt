-- ===== src/Cli/Session/Logged.antt =====
-- The files of the root CA, and the file operations for the images of a new UTM box, keep the log safe.
use mpd_virt_macos.Text.{Text}
use mpd_virt_macos.Fs.{FilePath}
use mpd_virt_macos.Machine.{Outside}
use mpd_virt_macos.Machine.Keeps.{Keeps}
use mpd_virt_macos.Ca.{write_pem}
use mpd_virt_macos.Cli.Session.{SafeLog}
use mpd_virt_macos.Cli.Session.Images.{Handles}
use mpd_virt_macos.Cli.Session.Rooted.{Forge}
use mpd_virt_macos.Cli.Session.Gate.{gate_rules, Keeps-io, Keeps-writing, Keeps-draw}

module _ (o : Outside) where
  pub Keeps-write_pem :
      (p : FilePath) (kind der : Text) → Keeps (SafeLog o) (write_pem o p kind der)
  unfolding write_pem
  Keeps-write_pem p kind der = search gate_rules

  pub forged : Forge o (SafeLog o)
  forged = record { draws = Keeps-draw o; cert = Keeps-write_pem _; key = Keeps-write_pem _ }

  pub handled : Handles o (SafeLog o) (λ p. Unit)
  handled = record {
    writing = Keeps-writing o;
    made = λ p f. Keeps-io o _ _;
    made_above = λ p f. Keeps-io o _ _;
    written = λ p t f. Keeps-io o _ _;
    removed = λ p f. Keeps-io o _ _;
    cleared = λ p f. Keeps-io o _ _;
    resized = λ p n f. Keeps-io o _ _;
    moved = λ p q f g. Keeps-io o _ _;
    deeper = λ p r f. tt;
    cached = tt;
    temporary = λ fs. tt;
  }
