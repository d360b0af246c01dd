-- ===== src/Constant.antt =====
-- constant.rs: message codes, sizes and names. A text is the list of its bytes.
use Prim.Native.Char.{code}
use Prim.Native.String.{String}
use ssh_rs.Base.{ℕ, List, [], ◌∷◌}

abbrev pub ascii : String → List ℕ
ascii String.[] = []
ascii (String.◌∷◌ c s) = code c ∷ ascii s

abbrev pub client_version : List ℕ
client_version = ascii "SSH-2.0-SSH_RS-0.5.0"

abbrev pub ssh_magic : List ℕ
ssh_magic = ascii "SSH-"

abbrev pub ssh_userauth : List ℕ
ssh_userauth = ascii "ssh-userauth"

abbrev pub ssh_connection : List ℕ
ssh_connection = ascii "ssh-connection"

abbrev pub public_key : List ℕ
public_key = ascii "publickey"

abbrev pub password : List ℕ
password = ascii "password"

abbrev pub session : List ℕ
session = ascii "session"

abbrev pub shell : List ℕ
shell = ascii "shell"

abbrev pub exec : List ℕ
exec = ascii "exec"

abbrev pub pty_req : List ℕ
pty_req = ascii "pty-req"

abbrev pub xterm_var : List ℕ
xterm_var = ascii "xterm-256color"

-- mod size
abbrev pub buf_size : ℕ
buf_size = 32768

abbrev pub local_window_size : ℕ
local_window_size = 2097152

-- mod ssh_connection_code
abbrev pub global_request : ℕ
global_request = 80

abbrev pub request_failure : ℕ
request_failure = 82

abbrev pub channel_open : ℕ
channel_open = 90

abbrev pub channel_open_confirmation : ℕ
channel_open_confirmation = 91

abbrev pub channel_open_failure : ℕ
channel_open_failure = 92

abbrev pub channel_window_adjust : ℕ
channel_window_adjust = 93

abbrev pub channel_data : ℕ
channel_data = 94

abbrev pub channel_extended_data : ℕ
channel_extended_data = 95

abbrev pub channel_eof : ℕ
channel_eof = 96

abbrev pub channel_close : ℕ
channel_close = 97

abbrev pub channel_request : ℕ
channel_request = 98

abbrev pub channel_success : ℕ
channel_success = 99

abbrev pub channel_failure : ℕ
channel_failure = 100

-- mod ssh_transport_code
abbrev pub service_request : ℕ
service_request = 5

abbrev pub service_accept : ℕ
service_accept = 6

abbrev pub kexinit : ℕ
kexinit = 20

abbrev pub newkeys : ℕ
newkeys = 21

abbrev pub kexdh_init : ℕ
kexdh_init = 30

abbrev pub kexdh_reply : ℕ
kexdh_reply = 31

-- mod ssh_user_auth_code
abbrev pub userauth_request : ℕ
userauth_request = 50

abbrev pub userauth_failure : ℕ
userauth_failure = 51

abbrev pub userauth_success : ℕ
userauth_success = 52

abbrev pub userauth_pk_ok : ℕ
userauth_pk_ok = 60

-- ALPHABET
abbrev pub alphabet : List ℕ
alphabet = b'A' ∷ b'B' ∷ b'C' ∷ b'D' ∷ b'E' ∷ b'F' ∷ []
