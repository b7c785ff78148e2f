-- ===== src/Ssh.antt =====
-- rallyci/common/asyncssh.py: the command line of the ssh client, the wait for a server, and what a
-- command returns. Bytes are texts, and `decode` is `bytes.decode`, which may raise.
pub mod Command
pub mod Connect
pub mod Session
pub mod Scp
mod Tests
