-- ===== src/Tests.antt =====
-- Runs of the model on concrete inputs: the cases of test.cpp, and each theorem at an example.
mod Util
mod WorkQueue
mod Http
mod Htaccess
mod Dns
mod Handlers
mod Connection
mod AsyncConnection
mod EventLoop
mod AsyncFiles
mod AsyncHandlers
mod AsyncServer
mod Listener
mod Mocks
mod Launch
