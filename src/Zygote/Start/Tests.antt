-- ===== src/Zygote/Start/Tests.antt =====
-- The theorems about `ZygoteManager::new`, on two systems.
use sand_box_rust.Base.{pos, refl, true, false, [], none, codes, arith}
use sand_box_rust.Server.Config.{ProxyConfig}
use sand_box_rust.Zygote.Start.{System, socketpair, new}
use sand_box_rust.Zygote.Start.Laws.{Leaves, new-Leaves}

abbrev no_proxy : ProxyConfig
no_proxy = record { socks5 = []; http = []; https = [] }

-- The sockets are 3 and 4, and the interpreter cannot be started.
abbrev refusing : System
refusing = record {
  rc = pos 0;
  fds = (3, 4);
  spawns = λ _. false;
  set_nonblocking = true;
  from_std = true;
}

new-Leaves_example :
    Leaves
      (λ p. p.code)
      100
      3
      4
      (new
        (λ p. p.code)
        100
        refusing
        (codes "python3")
        (codes "lib.so")
        (codes "lib")
        []
        no_proxy
        none)
unfolding socketpair
new-Leaves_example =
    new-Leaves (codes "python3") (codes "lib.so") (codes "lib") [] no_proxy none (λ p. p.code) 100
      refusing 3 4 refl (ground arith)
