-- ===== src/Http.antt =====
-- seekserve-serve/src/http_range_server.cpp and include/seekserve/auth_utils.hpp: URLs, tokens, the
-- registry of byte sources, the answer to a request, and the loop that streams a body.
-- Sockets, Beast and Asio are not part of the repository: a request comes in as its method, target
-- and two header fields, and an answer is a value. Texts are lists of bytes.
pub mod Url
pub mod Auth
pub mod Registry
pub mod Handler
pub mod Stream
