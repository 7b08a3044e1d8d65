-- ===== src/Mcp/Wiring.antt =====
-- `on_mcp_event` of e2e/smoke_test_runner.py, which hands the events of the MCP handlers to the
-- supervisor's bridge: the world of the handlers is then the bridge's two stores and the wall clock.
pub mod Laws
use vanpilot.Prelude.{ℕ, String, Option, none, some, [], ◌==◌, string_eq, if◌then◌else◌}
use vanpilot.Exec.{Exec, Result, ok}
use vanpilot.Goldens.Filter.{Bytes}
use vanpilot.Supervisor.Bridge.{Stores, on_bitmap_submitted, on_display_requested}
use vanpilot.Mcp.Handlers.{Callback}

pub record World : Type 0 where
  pub stores : Stores
  pub now : ℕ

-- `None`, which the handlers never send with a bitmap, is written as no bytes.
abbrev pub or_empty : Option Bytes → Bytes
or_empty none = []
or_empty (some bs) = bs

-- `on_mcp_event`
unfoldable pub on_mcp_event : Callback World
on_mcp_event event_type cache_key image_data w =
    if event_type == "bitmap_submitted"
    then (
      ok tt,
      record w { stores = on_bitmap_submitted w.now cache_key (or_empty image_data) w.stores },
    )
    else (if event_type == "display_requested"
        then (ok tt, record w { stores = on_display_requested w.now cache_key w.stores })
        else (ok tt, w))
