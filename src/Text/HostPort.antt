-- ===== src/Text/HostPort.antt =====
-- `net.SplitHostPort`, and the fallback on the whole address that the middlewares share.
use Prim.Native.Char.{Char, code}
use text.Mathlib.TextLemmas.{nil-append, cons-append}
use corncrake.Prelude.{
  ℕ, ◌≡◌, refl, ap, ◌∙◌, String, Bool, false, ◌||◌, Option, none, some, arith, eqb, if◌then◌else◌,
}
use corncrake.Text.{◌<>◌}

abbrev pub has : ℕ → String → Bool
has c String.[] = false
has c (String.◌∷◌ d s) = eqb (code d) c || has c s

abbrev extend : Char → String → Option (String × String) → Option (String × String)
extend c s none = if eqb (code c) b':' then some (String.[], s) else none
extend c s (some (before, behind)) = some (String.◌∷◌ c before, behind)

-- The text before the last colon, and behind it.
abbrev pub split_last : String → Option (String × String)
split_last String.[] = none
split_last (String.◌∷◌ c s) = extend c s (split_last s)

-- What stands before a closing bracket that is the first one and the end.
abbrev inner_with : Char → String → Option String → Option String
inner_with c String.[] rest = if eqb (code c) b']' then some String.[] else none
inner_with c (String.◌∷◌ d s) none = none
inner_with c (String.◌∷◌ d s) (some rest) =
    if eqb (code c) b']' then none else some (String.◌∷◌ c rest)

abbrev inner : String → Option String
inner String.[] = none
inner (String.◌∷◌ c s) = inner_with c s (inner s)

abbrev bracketed : Option String → String → Option String
bracketed none port = none
bracketed (some host) port =
    if has b'[' host || has b'[' port || has b']' port then none else some host

abbrev plain : String → String → Option String
plain host port =
    if has b':' host || has b'[' host || has b'[' port || has b']' host || has b']' port
    then none
    else some host

abbrev pub host_before : String → String → Option String
host_before String.[] port = plain String.[] port
host_before (String.◌∷◌ c s) port =
    if eqb (code c) b'[' then bracketed (inner s) port else plain (String.◌∷◌ c s) port

abbrev host_of : Option (String × String) → Option String
host_of none = none
host_of (some (host, port)) = host_before host port

-- `none` is an error of the address.
abbrev pub split_host_port : String → Option String
split_host_port s = host_of (split_last s)

abbrev pub or_whole : String → Option String → String
or_whole address none = address
or_whole address (some host) = host

abbrev pub client_ip : String → String
client_ip address = or_whole address (split_host_port address)

split_last-none : (s : String) → has b':' s ≡ false → split_last s ≡ none
split_last-none String.[] h = refl
split_last-none (String.◌∷◌ c s) h =
    let rest = split_last-none s (ground arith) in rw rest (ground arith)

colon-append : (port : String) → ":" <> port ≡ String.◌∷◌ ":" port
colon-append port = cons-append ":" String.[] port ∙ ap (String.◌∷◌ ":") (nil-append port)

split_last-append :
    (host port : String)
    → has b':' port ≡ false
    → split_last (host <> ":" <> port) ≡ some (host, port)
split_last-append String.[] port h = rw (nil-append, colon-append, split_last-none port h) refl
split_last-append (String.◌∷◌ c host) port h = rw (cons-append, split_last-append host port h) refl

host_before-plain :
    (host port : String)
    → has b':' host || has b'[' host || has b']' host ≡ false
    → has b':' port || has b'[' port || has b']' port ≡ false
    → host_before host port ≡ some host
host_before-plain String.[] port h k = ground arith
host_before-plain (String.◌∷◌ c host) port h k = ground arith

-- A plain host is what counts of an address, whatever the port.
pub client_ip-plain :
    (host port : String)
    → has b':' host || has b'[' host || has b']' host ≡ false
    → has b':' port || has b'[' port || has b']' port ≡ false
    → client_ip (host <> ":" <> port) ≡ host
client_ip-plain host port h k =
    rw (split_last-append host port (ground arith), host_before-plain host port h k) refl
