-- ===== src/Tests/Fake.antt =====
-- A machine for the tests, whose box 42 answers as it should.
use mpd_virt_macos.Base.{
  ◌+◌, ◌*◌, true, false, if◌then◌else◌, List, [], ◌∷◌, ◌==◌, list_eq, nat_eq, some,
}
use mpd_virt_macos.Text.{Text, codes, join}
use mpd_virt_macos.Text.Decimal.{pos}
use mpd_virt_macos.Host.{Answer, ended}
use mpd_virt_macos.Machine.{Cert, Crypto, Outside, Mac}
use mpd_virt_macos.Ca.{day, hour}
use mpd_virt_macos.Tests.Servers.{home, empty_home}
use mpd_virt_macos.Tests.Power.{machine}

abbrev pub says : Text → Answer
says t = ended (record { stdout = t; stderr = []; code = pos 0 })

abbrev last_of : List Text → Text
last_of [] = []
last_of (a ∷ []) = a
last_of (a ∷ b ∷ bs) = last_of (b ∷ bs)

-- What the box prints, by the last word of the command.
abbrev prints : Text → Text
prints word =
    if word == codes "hostname"
    then codes "mpd-042"
    else if word == codes ". /etc/os-release && printf '%s %s' \"$ID\" \"$VERSION_CODENAME\""
    then codes "debian trixie"
    else if word == codes "systemctl is-system-running"
    then codes "running"
    else codes "ok"

abbrev toy_root : Cert
toy_root = record {
  serial = 1;
  common_name = codes "mpd Root CA";
  dns_names = [];
  not_before = 0;
  not_after = 100 * day;
  is_ca = true;
  basic_constraints_valid = true;
  path_len = some 1;
  permitted_domains = [];
  permitted_domains_critical = false;
  organization = [];
  organizational_unit = [];
  usage = [];
}

-- A text for each thing, and no secrets; the clock of the zone goes back by an hour.
abbrev toy_crypto : Crypto
toy_crypto = record {
  generate_key = λ n bits. some (codes "key");
  random_serial = λ n. some n;
  create_certificate = λ leaf root pub_key signer. some leaf.common_name;
  parse_certificate = λ der. some toy_root;
  marshal_key = λ key. some key;
  parse_rsa_key = λ der. some der;
  encode_pem = λ kind der. der;
  decode_pem = λ t. some (codes "CERTIFICATE", t);
  add_days = λ n d. n + d * day + hour;
  draw_time = λ n. 2000000000;
  sha1_hex = λ t. t;
  sha256_hex = λ t. t;
}

abbrev pub fake : Outside
fake = record {
  root = home;
  ssh_config = codes "ann" ∷ codes ".ssh" ∷ codes "config" ∷ [];
  answer = λ log c. says (prints (last_of c));
  duration = λ log c. 1000000000;
  leaves = λ log c fs. fs;
  dir_size = λ p. 64;
  exchange = λ log asked req. some (record { error = []; pubkey = codes "pk"; vms = [] });
  before = λ log. machine;
  rounds = λ log k. machine;
  round_clock = λ log k. 2 * k;
  lookup = λ now name. some (codes "10.163.42.1" ∷ []);
  temp_dir = λ fs. codes "tmp" ∷ codes "t1" ∷ [];
  temp_file = λ fs. codes "tmp" ∷ codes "f1" ∷ [];
  path_text = λ p. join (codes "/") p;
  path_dir = λ p. codes "/d";
  path_base = λ p. codes "f";
  parse_ip = λ ip. true;
  crypto = toy_crypto;
}

abbrev pub idle : Mac
idle = record { files = empty_home; log = []; asked = []; now = 0; drawn = 0 }
