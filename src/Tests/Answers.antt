-- ===== src/Tests/Answers.antt =====
-- Answers to requests that run code.
use dify_sandbox.Base.{pos, false, [], codes}
use dify_sandbox.Service.{Settings, failed, pool_exhausted, Runner}
use dify_sandbox.Controller.{RunRequest}

abbrev offline : Settings
offline = record { network_enabled = false; preload_enabled = false; worker_timeout = pos 5 }

abbrev broken : Runner
broken code timeout preload net = failed (codes "broken")

abbrev busy : Runner
busy code timeout preload net = pool_exhausted (codes "busy")

abbrev ruby : RunRequest
ruby = record { language = codes "ruby"; code = codes "p 1"; preload = []; enable_network = false }
