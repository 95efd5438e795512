-- ===== src/Session.antt =====
-- The browser session: client/src/services/tokenStorage.ts, the user of
-- client/src/services/authService.ts, the state of client/src/context/AuthProvider.tsx and the
-- guards client/src/components/PrivateRoute.tsx and RoleRoute.tsx.
pub mod Storage
pub mod User
pub mod Provider
pub mod Guards
pub mod Laws
pub mod Names
pub mod Access
mod Tests
