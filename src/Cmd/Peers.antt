-- ===== src/Cmd/Peers.antt =====
-- `status` of cmd/claude-bridge/status.go. Where the source prints, the report says what.
use claude_bridge.Base.{ℕ, ◌⊎◌, inl, inr, List, [], ◌∷◌, map, if◌then◌else◌}
use claude_bridge.Text.{Str}
use claude_bridge.Config.{Config}
use claude_bridge.Config.Paths.{sock_path}
use claude_bridge.Broker.Session.{Session}
use claude_bridge.Rpc.Request.{method_list_peers}
use claude_bridge.Rpc.Client.{empty}
use claude_bridge.Mcp.Codec.{Codec, DaemonClient}
use claude_bridge.Cmd.Os.{dial, close_client, Os}

pub record PeerRow : Type 0 where
  pub project_name : Str
  pub project_path : Str
  pub last_seen : Str

pub data Report : Type 0 where
  not_running no_sessions : Report
  failed : Str → Report
  table : List PeerRow → Report

abbrev pub peer_row : Codec → Session → PeerRow
peer_row k p = record {
  project_name = p.project_name;
  project_path = p.project_path;
  last_seen = k.format_time p.last_seen;
}

-- `printPeers`
unfoldable pub print_peers : List PeerRow → Report
print_peers [] = no_sessions
print_peers (r ∷ rows) = table (r ∷ rows)

module _ {S : Type 0} (os : Os S) (k : Codec) (c : DaemonClient S) where
  -- Call is CallAs without a session.
  unfoldable pub list_rows : S → S × (Str ⊎ List PeerRow)
  list_rows s =
      let (s1, answer) = c.call_as [] method_list_peers empty s in
      elim answer [
        | inl e ↦ (s1, inl e)
        | inr raw ↦ elim (k.list_peers_result raw) [
          | inl e ↦ (s1, inl e)
          | inr ps ↦ (s1, inr (map (peer_row k) ps))
        ]
      ]

  -- The report and the exit code. The connection is closed last.
  unfoldable pub run_status : Config → S → S × (Report × ℕ)
  unfolding sock_path list_rows print_peers
  run_status cfg s =
      let (s1, alive) = os.act (dial (sock_path os.user cfg)) s in
      let (s2, rows) = list_rows s1 in
      let s3 = (os.act close_client s2).0 in
      if alive
      then elim rows [ inl e ↦ (s3, (failed e, 1)) | inr rs ↦ (s3, (print_peers rs, 0)) ]
      else (s1, (not_running, 0))
