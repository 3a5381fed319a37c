-- ===== src/Samples/Handlers.antt =====
-- The handlers of addresses and files, the routes, the web hook and the background task at small inputs.
use dmarc_report_viewer.Common.{
  ◌≡◌, refl, ◌⊎◌, inl, inr, String, Option, some, List, [], ◌∷◌, ◌++◌, map, true, false, arith, In,
  In-cons, not-In-nil, here, there, All, flat_map,
}
use dmarc_report_viewer.Common.BTree as BTree
use dmarc_report_viewer.Common.Int.{pos}
use dmarc_report_viewer.Common.Ip.{IpAddr, v4, ip_eq}
use dmarc_report_viewer.Common.Map as Map
use dmarc_report_viewer.Common.NoTwice.{NoTwice}
use dmarc_report_viewer.Common.Result.{Result, ok, err}
use dmarc_report_viewer.Common.Text.{is_blank}
use dmarc_report_viewer.Background.{collect_mails, keys}
use dmarc_report_viewer.Background.Task.{Round, start_bg_task}
use dmarc_report_viewer.Background.Rounds.{NoneVanish, start_bg_task-NoTwice}
use dmarc_report_viewer.CacheMap as CacheMap
use dmarc_report_viewer.DnsClientCached.{HostCache}
use dmarc_report_viewer.Http.{ok_json}
use dmarc_report_viewer.Http.Auth.{AuthEnv}
use dmarc_report_viewer.Http.Auth.Access.{HasCredentials}
use dmarc_report_viewer.Http.Ips.{dns_batch_handler}
use dmarc_report_viewer.Http.Ips.Tasks.{Task, waiting, Batch, Run}
use dmarc_report_viewer.Http.Ips.Progress.{joined, IsFinished}
use dmarc_report_viewer.Http.Ips.Batch.{Agrees, dns_batch_handler-Run}
use dmarc_report_viewer.Http.Routes.{
  Handler, health, Route, health_route, guarded_routes, route_layer, routes, serve, handled,
}
use dmarc_report_viewer.Http.Routes.Protected.{serve-IsAllowed}
use dmarc_report_viewer.Http.StaticFiles.{StaticFile, FileEnv, static_files, handler}
use dmarc_report_viewer.Http.StaticFiles.Table.{not_any, handler-static_files}
use dmarc_report_viewer.Common.{any, there, here, ◌==◌}
use dmarc_report_viewer.Common.Text.{ends_with}
use dmarc_report_viewer.Common.Texts.{as_bytes}
use dmarc_report_viewer.WebHook.{inject_mail_details}
use mathlib.Core.List.Perm as Perm
use dmarc_report_viewer.Common.Map
use dmarc_report_viewer.Common.{string_eq}
use dmarc_report_viewer.Common.Map.Keys.{IsDistinct}
use dmarc_report_viewer.WebHook.Template.{
  as_shown, Piece, literal, hole, render, fill_all, inject-render,
}
use dmarc_report_viewer.Samples.{config, bg_env, state}

abbrev file_env : FileEnv
file_env = record {
  debug_assertions = false;
  embedded = λ path. 1 ∷ [];
  read_file = λ path. err "no checkout";
}

abbrev script : StaticFile
script = record { http_path = "/lit.js"; file_path = "ui/lit-core.3.3.0.min.js" }

script_listed : In script static_files
script_listed = there (there (here refl))

unlisted : ¬ In "/a" (map (λ sf. sf.http_path) static_files)
unfolding any
unlisted i = not_any (λ p. p == "/a") (map (λ sf. sf.http_path) static_files) "/a" i refl refl

handler-static_files_example :
    (handler file_env "/lit.js"
      ≡ record { status = 200; content_type = "text/javascript"; body = 1 ∷ [] })
    × (handler file_env "/a"
        ≡ record { status = 404; content_type = "text/plain"; body = as_bytes "File not found" })
unfolding ends_with
handler-static_files_example = handler-static_files file_env script "/a" script_listed unlisted

-- A network that knows one name
abbrev resolve : IpAddr → Result (Option String)
resolve ip = ok (some "host")

nothing_cached : Agrees resolve (record { map = []; max_size = 2; counter = 0 })
unfolding CacheMap.get Map.get
nothing_cached ip host h = cc

dns_batch_handler-Run_example :
    ((after : HostCache) × (ended : List Task) × Run resolve
        (record {
          cache = record { map = []; max_size = 2; counter = 0 };
          tasks = waiting (v4 1 1 1 1) ∷ waiting (v4 2 2 2 2) ∷ [];
        })
        (record { cache = after; tasks = ended })
      × All IsFinished ended)
    × ((s : Batch)
        → Run resolve
            (record {
              cache = record { map = []; max_size = 2; counter = 0 };
              tasks = waiting (v4 1 1 1 1) ∷ waiting (v4 2 2 2 2) ∷ [];
            })
            s
        → All IsFinished s.tasks
        → dns_batch_handler (λ results. true) (v4 1 1 1 1 ∷ v4 2 2 2 2 ∷ []) (map joined s.tasks)
          ≡ ok_json (some "host" ∷ some "host" ∷ []))
dns_batch_handler-Run_example =
    dns_batch_handler-Run resolve (λ results. true) (v4 1 1 1 1 ∷ v4 2 2 2 2 ∷ [])
      (record { map = []; max_size = 2; counter = 0 }) (omega arith) nothing_cached refl

-- A router that finds the route of the health check only
abbrev find_health : List Route → String → String → Option Route
find_health table method path = some health_route

abbrev auth_env : AuthEnv
auth_env = record { base64 = λ s. Option.none; from_utf8 = λ bytes. Option.none }

In-last : (xs : List Route) (x : Route) → In x (xs ++ x ∷ [])
In-last [] x = here refl
In-last (y ∷ xs) x = there (In-last xs x)

health_listed : In health_route routes
health_listed = In-last (route_layer guarded_routes) health_route

serve-IsAllowed_example :
    ((handler : Handler)
      → serve find_health auth_env config "GET" "/health" Option.none ≡ handled handler
      → (handler ≡ health)
        ⊎ ((is_blank config.http_server_password ≡ true)
            ⊎ HasCredentials auth_env config Option.none))
    × ((is_blank config.http_server_password ≡ true) ⊎ HasCredentials auth_env config Option.none
        → serve find_health auth_env config "GET" "/health" Option.none ≡ handled health)
serve-IsAllowed_example =
    serve-IsAllowed find_health auth_env config "GET" "/health" Option.none health_route refl
      health_listed

-- `Mail [id] of [sender]`, with one detail of the two
abbrev template : List Piece
template = literal "Mail " ∷ hole "id" ∷ literal " of " ∷ hole "sender" ∷ []

abbrev by_id : List (String × String)
by_id = ("id", "7") ∷ ("uid", "3") ∷ []

abbrev by_uid : List (String × String)
by_uid = ("uid", "3") ∷ ("id", "7") ∷ []

by_uid_once : IsDistinct by_uid
unfolding Map.get
by_uid_once = (refl, (refl, tt))

inject-render_example :
    inject_mail_details (λ s. s) by_uid (render template) false
    ≡ render (map (fill_all (as_shown (λ s. s) false by_id)) template)
inject-render_example =
    inject-render (λ s. s) false by_id by_uid template (Perm.swap ("id", "7") ("uid", "3") [])
      by_uid_once (omega arith) (omega arith)

-- Two rounds with the same mails, the second of which stops the task
abbrev rounds : List Round
rounds =
    (record {
      env = bg_env;
      now = ok 1000;
      elapsed = "1.5";
      upcoming = Option.none;
      local = pos 1000000;
      stopped = false;
    }
      ∷ record {
        env = bg_env;
        now = ok 2000;
        elapsed = "0.5";
        upcoming = some (some (pos 60000));
        local = pos 2000000;
        stopped = true;
      }
      ∷ [])

none_vanish : NoneVanish config (keys state.mails) rounds
unfolding collect_mails BTree.extend BTree.insert
none_vanish =
    (λ id i. elim (In-cons i) [ inl e ↦ here e | inr j ↦ absurd (not-In-nil j) ], (λ id i. i, tt))

start_bg_task-NoTwice_example :
    NoTwice (flat_map (λ ids. ids) (start_bg_task config rounds state).1)
    × ((id : String)
        → In id (flat_map (λ ids. ids) (start_bg_task config rounds state).1)
        → ¬ In id (keys state.mails))
start_bg_task-NoTwice_example = start_bg_task-NoTwice config rounds state none_vanish
