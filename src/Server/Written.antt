-- ===== src/Server/Written.antt =====
-- `requestLogger` and `securityHeaders` of main.go, around `serve`: what is written to the log and into
-- the header of every answer. The header fields that net/http and the handlers add are left out, and of
-- a log line the byte count, the latency and the id of the request.
use corncrake.Prelude.{ℕ, ◌≡◌, refl, String, some}
use corncrake.GoMap
use corncrake.GoMap.{GoMap}
use corncrake.Http.{Request, Response, status_of}
use corncrake.Server.{Clock, Config, State, serve}

pub record LogLine : Type 0 where
  pub method : String
  pub path : String
  pub status : ℕ

pub record Written : Type 0 where
  pub header : GoMap String
  pub response : Response
  pub log : LogLine

abbrev pub security_headers : GoMap String → GoMap String
security_headers header =
    GoMap.put
      (GoMap.put (GoMap.put header "X-Content-Type-Options" "nosniff") "X-Frame-Options" "DENY")
      "Referrer-Policy" "no-referrer"

abbrev pub request_logger : Request → Response → LogLine
request_logger req r = record { method = req.method; path = req.path; status = status_of r }

module _ {S PublicKey : Type 0} (c : Config S PublicKey) where
  -- The logger stands behind RealIP and around everything else, the header fields are set before HTTPS
  -- is looked at.
  abbrev pub written : Clock → Request → State S → Written × State S
  written t req st =
      let (r, st') = serve c t req st in
      (
        record {
          header = security_headers GoMap.empty;
          response = r;
          log = request_logger (c.real_ip req) r;
        },
        st',
      )

  -- Whatever is answered, by a handler or in its place, goes out with the three fields, and is logged
  -- with its status.
  written_lem :
      (t : Clock) (req : Request) (st : State S)
      → let out = (written t req st).0 in
        (GoMap.get out.header "X-Content-Type-Options" ≡ some "nosniff")
        × (GoMap.get out.header "X-Frame-Options" ≡ some "DENY")
        × (GoMap.get out.header "Referrer-Policy" ≡ some "no-referrer")
        × (out.log.status ≡ status_of (serve c t req st).0)
  unfolding GoMap.get GoMap.put GoMap.empty
  written_lem t req st = (refl, refl, refl, refl)
