-- ===== src/Alerts/Configs/System.antt =====
-- alerts: the requests on alerts and on targets, over the manager and the targets together.
use parseable.Prelude.{ℕ, ◌≡◌, Bool, true, false, Option, List, String}
use parseable.Results.{Result, ok, err}
use parseable.Alerts.{AlertConfig, AlertError, Manager, Io}
use parseable.Alerts.Requests.{Request, posts, modifies, serve}
use parseable.Alerts.Configs.{
  AlertRequest, Target, TargetConfigs, into, update, update_target, delete,
}

pub record AlertSystem : Type 0 where
  pub manager : Manager
  pub configs : TargetConfigs

-- A request on alerts or targets: a new alert and a change of one with the id and the time that
-- `AlertRequest::into` draws, any other request on alerts, and those on targets with what the
-- metastore does.
pub data SystemRequest : Type 0 where
  posts_alert : (io : Io) (new_id : String) (request : AlertRequest) → SystemRequest
  modifies_alert : (io : Io) (id new_id : String) (request : AlertRequest) → SystemRequest
  on_alerts : (request : Request) → SystemRequest
  posts_target : (put_target : Bool) (target : Target) → SystemRequest
  updates_target : (put_target : Bool) (id : String) (target : Target) → SystemRequest
  deletes_target : (delete_target : Bool) (id : String) → SystemRequest

-- The requests on alerts that are made of an `AlertRequest`.
abbrev pub brings_targets : Request → Bool
brings_targets (posts io request) = true
brings_targets (modifies io id request) = true
brings_targets _ = false

module _ (allowed is_duration : String → Bool) (query_error : String → Option AlertError)
    (parse_time : String → Option ℕ)
    (resolve_stream_names : String → Result AlertError (List String)) where
  abbrev pub on_manager : Request → AlertSystem → AlertSystem
  unfolding serve
  on_manager request sys = record sys {
    manager = serve allowed is_duration query_error parse_time request sys.manager;
  }

  -- A request that is turned down before the handler changes nothing.
  abbrev pub post_made : Io → Result AlertError AlertConfig → AlertSystem → AlertSystem
  post_made io (err e) sys = sys
  post_made io (ok alert) sys = on_manager (posts io alert) sys

  unfoldable pub serve_system : SystemRequest → AlertSystem → AlertSystem
  serve_system (posts_alert io new_id request) sys =
      post_made io (into resolve_stream_names new_id io.now sys.configs request) sys
  serve_system (modifies_alert io id new_id request) sys =
      on_manager (modifies io id (into resolve_stream_names new_id io.now sys.configs request)) sys
  serve_system (on_alerts request) sys = on_manager request sys
  serve_system (posts_target put_target target) sys = record sys {
    configs = (update put_target target sys.configs).1;
  }
  serve_system (updates_target put_target id target) sys = record sys {
    configs = (update_target put_target id target sys.configs).1;
  }
  serve_system (deletes_target delete_target id) sys = record sys {
    configs = (delete delete_target sys.manager.alerts id sys.configs).1;
  }

  -- Requests that come one after the other, where those on alerts that bring targets are made of an
  -- `AlertRequest`.
  abbrev pub IsMade : SystemRequest → Type 0
  IsMade (on_alerts request) = brings_targets request ≡ false
  IsMade _ = Unit {0}

  pub data ServedSystem : AlertSystem → AlertSystem → Type 0 where
    start : {sys : AlertSystem} → ServedSystem sys sys
    next :
        {sys before : AlertSystem} (request : SystemRequest)
        → IsMade request
        → ServedSystem sys before
        → ServedSystem sys (serve_system request before)
