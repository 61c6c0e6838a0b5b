-- ===== src/TcpClient/Cleanup.antt =====
-- What `tcp_client_cleanup` of src/tcp_client.c leaves open.
use stb_e_bpf.Base.{ℕ, ◌≡◌, refl, some, []}
use stb_e_bpf.TcpClient.{World, Link, drop_socket}
use stb_e_bpf.TcpClient.Send.{flush_at, tcp_client_disconnect, tcp_client_cleanup}
use stb_e_bpf.TcpClient.Descriptors.{IsValid, drop_socket-IsValid, disconnect_over-drops}

-- Cleaning up a valid client comes to its end at any depth of the calls, and leaves no socket open.
pub cleanup-closes :
    (depth : ℕ) (l : Link)
    → IsValid l
    → (w : World) × (tcp_client_cleanup depth l ≡ some w) × (w.open_fds ≡ [])
unfolding tcp_client_cleanup tcp_client_disconnect
cleanup-closes depth l v = (
  (drop_socket l).1,
  rw (disconnect_over-drops (flush_at depth) l v) refl,
  (drop_socket-IsValid l v).2,
)
